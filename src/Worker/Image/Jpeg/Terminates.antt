-- ===== src/Worker/Image/Jpeg/Terminates.antt =====
-- The loop of `rewriteJpegMetadata` ends: each round goes on by a byte at least.
use backend.Prelude.{
  ℕ, zero, suc, ◌<◌, ◌≡◌, ◌≢◌, refl, true, false, [], ◌∷◌, Option, none, some, ◌==◌, length, take,
  drop, length-drop, arith,
}
use backend.Worker.Image.Bytes.{Bytes, Walk, out_of_fuel, threw, kept, prepend}
use backend.Worker.Image.Jpeg.{
  keep_scan, until_end, segment_length, kept_segment, rewrite_segments, rewrite_jpeg_metadata,
}

-- The rounds of the loop.
module _ (n a b c d : ℕ) (more : Bytes) where
  pub round_bad : (a == 255) ≡ false → rewrite_segments (suc n) (a ∷ b ∷ c ∷ d ∷ more) ≡ threw
  unfolding rewrite_segments
  round_bad e = ground (arith, e)

  pub round_fill :
      (a == 255) ≡ true
      → (b == 255) ≡ true
      → rewrite_segments (suc n) (a ∷ b ∷ c ∷ d ∷ more) ≡ rewrite_segments n (b ∷ c ∷ d ∷ more)
  unfolding rewrite_segments
  round_fill e f = ground (arith, e, f)

  pub round_scan :
      (a == 255) ≡ true
      → (b == 255) ≡ false
      → (b == 218) ≡ true
      → rewrite_segments (suc n) (a ∷ b ∷ c ∷ d ∷ more)
        ≡ keep_scan (until_end (a ∷ b ∷ c ∷ d ∷ more))
  unfolding rewrite_segments
  round_scan e f g = ground (arith, e, f, g)

  pub round_segment :
      (a == 255) ≡ true
      → (b == 255) ≡ false
      → (b == 218) ≡ false
      → rewrite_segments (suc n) (a ∷ b ∷ c ∷ d ∷ more)
        ≡ prepend
            (kept_segment b (take (segment_length c d) (a ∷ b ∷ c ∷ d ∷ more)))
            (rewrite_segments n (drop (segment_length c d) (a ∷ b ∷ c ∷ d ∷ more)))
  unfolding rewrite_segments
  round_segment e f g = ground (arith, e, f, g)

pub prepend-out_of_fuel : (s : Bytes) (w : Walk) → w ≢ out_of_fuel → prepend s w ≢ out_of_fuel
prepend-out_of_fuel s out_of_fuel h e = h refl
prepend-out_of_fuel s threw h e = cc
prepend-out_of_fuel s (kept b) h e = cc

keep_scan-out_of_fuel : (o : Option Bytes) → keep_scan o ≢ out_of_fuel
keep_scan-out_of_fuel none e = cc
keep_scan-out_of_fuel (some s) e = cc

pub rewrite_segments-fuel :
    (n : ℕ) (rest : Bytes) → length rest < n → rewrite_segments n rest ≢ out_of_fuel
unfolding rewrite_segments
rewrite_segments-fuel zero rest h e = absurd (omega (arith, h))
rewrite_segments-fuel (suc n) [] h e = cc
rewrite_segments-fuel (suc n) (a ∷ []) h e = cc
rewrite_segments-fuel (suc n) (a ∷ b ∷ []) h e = cc
rewrite_segments-fuel (suc n) (a ∷ b ∷ c ∷ []) h e = cc
rewrite_segments-fuel (suc n) (a ∷ b ∷ c ∷ d ∷ more) h e =
    let rest = a ∷ b ∷ c ∷ d ∷ more in
    let fill = rewrite_segments-fuel n (b ∷ c ∷ d ∷ more) (omega (arith, h)) in
    let shorter = length-drop (segment_length c d) rest in
    let goes =
      rewrite_segments-fuel n (drop (segment_length c d) rest) (omega (arith, h, shorter)) in
    let segment = prepend-out_of_fuel (kept_segment b (take (segment_length c d) rest)) _ goes in
    let scan = keep_scan-out_of_fuel (until_end rest) in ground (arith, e, fill, segment, scan)

-- `rewriteJpegMetadata` ends on any input: its loop needs at most one round for each byte and one
-- more.
pub rewrite_jpeg_metadata-ends :
    (input : Bytes) (orientation : ℕ) → rewrite_jpeg_metadata input orientation ≢ out_of_fuel
unfolding rewrite_jpeg_metadata
rewrite_jpeg_metadata-ends input orientation =
    let shorter = length-drop 2 input in
    prepend-out_of_fuel _ _
      (rewrite_segments-fuel (suc (length input)) (drop 2 input) (omega (arith, shorter)))
