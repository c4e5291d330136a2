-- ===== src/Worker/Image/Jpeg/Rewritten.antt =====
-- What `rewriteJpegMetadata` makes is clean: rewriting it again changes nothing, so that
-- `carriesOnlyAllowedTypes` holds of it.
use backend.Prelude.{
  ℕ, zero, suc, ◌+◌, ◌-◌, ◌≤◌, ◌≡◌, ◌≢◌, refl, sym, ap, ◌∙◌, inl, inr, true, false, ◌&&◌, [], ◌∷◌,
  ◌++◌, some, ◌==◌, leb, Bool-cases, Option-cases, length, take, drop, length-take, take_past,
  take-append, drop-append, arith,
}
use backend.Worker.Image.Bytes.{Bytes, Walk, out_of_fuel, threw, kept, prepend}
use backend.Worker.Image.Jpeg.{
  keep_scan, until_end, segment_length, keeps_segment, kept_segment, rewrite_segments,
}
use backend.Worker.Image.Jpeg.Scan.{until_end-two, until_end-head, until_end-again}
use backend.Worker.Image.Jpeg.Terminates.{
  rewrite_segments-fuel, round_bad, round_fill, round_scan, round_segment,
}

prepend-same :
    (s : Bytes) (v w : Walk)
    → prepend s w ≢ out_of_fuel
    → (w ≢ out_of_fuel → v ≡ w)
    → prepend s v ≡ prepend s w
prepend-same s v out_of_fuel h k = absurd (h refl)
prepend-same s v threw h k = ap (prepend s) (k (λ e. cc))
prepend-same s v (kept b) h k = ap (prepend s) (k (λ e. cc))

-- More fuel changes nothing.
pub rewrite_segments-suc :
    (n : ℕ) (rest : Bytes)
    → rewrite_segments n rest ≢ out_of_fuel
    → rewrite_segments (suc n) rest ≡ rewrite_segments n rest
unfolding rewrite_segments
rewrite_segments-suc zero rest h = absurd (h refl)
rewrite_segments-suc (suc n) [] h = refl
rewrite_segments-suc (suc n) (a ∷ []) h = refl
rewrite_segments-suc (suc n) (a ∷ b ∷ []) h = refl
rewrite_segments-suc (suc n) (a ∷ b ∷ c ∷ []) h = refl
rewrite_segments-suc (suc n) (a ∷ b ∷ c ∷ d ∷ more) h =
    let fill = rewrite_segments-suc n (b ∷ c ∷ d ∷ more) in
    let rest = drop (segment_length c d) (a ∷ b ∷ c ∷ d ∷ more) in
    let segment =
      prepend-same (kept_segment b (take (segment_length c d) (a ∷ b ∷ c ∷ d ∷ more)))
        (rewrite_segments (suc n) rest) (rewrite_segments n rest) in
    let goes = rewrite_segments-suc n rest in
    elim (Bool-cases (a == 255)) [
      | inr e ↦ round_bad (suc n) a b c d more e ∙ sym (round_bad n a b c d more e)
      | inl e ↦ elim (Bool-cases (b == 255)) [
        | inl f ↦
            let now = round_fill n a b c d more e f in
            round_fill (suc n) a b c d more e f ∙ fill (λ k. h (now ∙ k)) ∙ sym now
        | inr f ↦ elim (Bool-cases (b == 218)) [
          | inl g ↦ round_scan (suc n) a b c d more e f g ∙ sym (round_scan n a b c d more e f g)
          | inr g ↦
              let now = round_segment n a b c d more e f g in
              round_segment (suc n) a b c d more e f g ∙ segment (λ k. h (now ∙ k)) goes ∙ sym now
        ]
      ]
    ]

rewrite_segments-more :
    (k n : ℕ) (rest : Bytes)
    → rewrite_segments n rest ≢ out_of_fuel
    → rewrite_segments (k + n) rest ≡ rewrite_segments n rest
rewrite_segments-more zero n rest h =
    let same : zero + n ≡ n = omega arith in ap (λ x. rewrite_segments x rest) same
rewrite_segments-more (suc k) n rest h =
    let same = rewrite_segments-more k n rest h in
    let next : suc k + n ≡ suc (k + n) = omega arith in
    ap (λ x. rewrite_segments x rest) next
    ∙ rewrite_segments-suc (k + n) rest (λ e. h (sym same ∙ e))
    ∙ same

-- The result, whatever the fuel that was enough for it.
pub rewrite_segments-enough :
    (n : ℕ) (rest out : Bytes)
    → rewrite_segments n rest ≡ kept out
    → rewrite_segments (suc (length rest)) rest ≡ kept out
rewrite_segments-enough n rest out e =
    let m = suc (length rest) in
    let ends = rewrite_segments-fuel m rest (omega arith) in
    let some_fuel : rewrite_segments n rest ≢ out_of_fuel = λ k. cc in
    let left = rewrite_segments-more m n rest some_fuel in
    let right = rewrite_segments-more n m rest ends in
    let swap : m + n ≡ n + m = omega arith in
    sym right ∙ ap (λ x. rewrite_segments x rest) (sym swap) ∙ left ∙ e

-- A scan is found again where it was kept.
scan-again :
    (n a b c d : ℕ) (more out : Bytes)
    → (a == 255) ≡ true
    → (b == 218) ≡ true
    → until_end (a ∷ b ∷ c ∷ d ∷ more) ≡ some out
    → rewrite_segments (suc n) out ≡ kept out
scan-again n a b c d more out m g e =
    let no_end : (a == 255 && b == 217) ≡ false = ground (arith, g) in
    let (t, same, f) = until_end-head a b (c ∷ d ∷ more) out no_end e in
    let no_mark : (b == 255 && c == 217) ≡ false = ground (arith, g) in
    let (r, same_tail, k) = until_end-head b c (d ∷ more) (b ∷ t) no_mark f in
    let (x, y, z, two) = until_end-two (c ∷ d ∷ more) (c ∷ r) k in
    let shape : out ≡ a ∷ b ∷ x ∷ y ∷ z = ground (arith, same, same_tail, two) in
    let again : until_end (a ∷ b ∷ x ∷ y ∷ z) ≡ some (a ∷ b ∷ x ∷ y ∷ z) =
      rw shape at (until_end-again (a ∷ b ∷ c ∷ d ∷ more) out e) in
    rw shape (round_scan n a b x y z m (ground (arith, g)) g ∙ ap keep_scan again)

-- No walk goes on from a byte that is no marker, or from the end.
not_marker :
    (n c : ℕ) (rest out : Bytes) → (c == 255) ≡ false → rewrite_segments n (c ∷ rest) ≢ kept out
unfolding rewrite_segments
not_marker zero c rest out f e = cc
not_marker (suc n) c [] out f e = cc
not_marker (suc n) c (x ∷ []) out f e = cc
not_marker (suc n) c (x ∷ y ∷ []) out f e = cc
not_marker (suc n) c (x ∷ y ∷ z ∷ more) out f e = let bad = round_bad n c x y z more f in cc

pub nothing_left : (n : ℕ) (out : Bytes) → rewrite_segments n [] ≢ kept out
unfolding rewrite_segments
nothing_left zero out e = cc
nothing_left (suc n) out e = cc

-- A walk that goes on after a segment has found the segment whole.
segment-whole :
    (n a b c d : ℕ) (more out : Bytes)
    → rewrite_segments n (drop (segment_length c d) (a ∷ b ∷ c ∷ d ∷ more)) ≡ kept out
    → (4 ≤ segment_length c d) × (segment_length c d ≤ length (a ∷ b ∷ c ∷ d ∷ more))
segment-whole n a b c d more out e =
    let end = segment_length c d in
    let rest = a ∷ b ∷ c ∷ d ∷ more in
    let at_least : 4 ≤ end = elim (Bool-cases (end == 2)) [
      | inl f ↦
          let two : end ≡ 2 = ground (arith, f) in
          absurd (not_marker n c (d ∷ more) out (ground (arith, two)) (rw two at e))
      | inr f ↦ elim (Bool-cases (end == 3)) [
        | inl g ↦
            let three : end ≡ 3 = ground (arith, g) in
            absurd (not_marker n d more out (ground (arith, three)) (rw three at e))
        | inr g ↦ ground (arith, f, g)
      ]
    ] in
    let at_most : end ≤ length rest = elim (Bool-cases (leb end (length rest))) [
      | inl f ↦ ground (arith, f)
      | inr f ↦
          let past = take_past end rest (ground (arith, f)) in
          absurd (nothing_left n out (rw past at e))
    ] in
    (at_least, at_most)

-- A segment that was kept is found again and kept again.
segment-again :
    (n a b c d : ℕ) (more out : Bytes)
    → (a == 255) ≡ true
    → (b == 255) ≡ false
    → (b == 218) ≡ false
    → 4 ≤ segment_length c d
    → segment_length c d ≤ length (a ∷ b ∷ c ∷ d ∷ more)
    → let segment = take (segment_length c d) (a ∷ b ∷ c ∷ d ∷ more) in
      rewrite_segments (suc n) (segment ++ out)
      ≡ prepend (kept_segment b segment) (rewrite_segments n out)
segment-again n a b c d more out m f g at_least at_most =
    let end = segment_length c d in
    let rest = a ∷ b ∷ c ∷ d ∷ more in
    let k = end - 4 in
    let split : end ≡ suc (suc (suc (suc k))) = omega (arith, at_least) in
    let tail = take k more in
    let shape : take end rest ≡ a ∷ b ∷ c ∷ d ∷ tail = ap (λ x. take x rest) split in
    let long : length (a ∷ b ∷ c ∷ d ∷ tail) ≡ end =
      ap length (sym shape) ∙ length-take end rest at_most in
    rw shape (
      round_segment n a b c d (tail ++ out) m f g
      ∙ ap
          (λ s.
            prepend (kept_segment b s)
              (rewrite_segments n (drop end (a ∷ b ∷ c ∷ d ∷ tail ++ out))))
          (take-append end (a ∷ b ∷ c ∷ d ∷ tail) out long)
      ∙ ap (λ s. prepend (kept_segment b (a ∷ b ∷ c ∷ d ∷ tail)) (rewrite_segments n s))
          (drop-append end (a ∷ b ∷ c ∷ d ∷ tail) out long))

pub prepend-eq_kept :
    (s : Bytes) (w : Walk) (out : Bytes)
    → prepend s w ≡ kept out
    → (t : Bytes) × (w ≡ kept t) × (out ≡ s ++ t)
prepend-eq_kept s out_of_fuel out e = absurd (cc)
prepend-eq_kept s threw out e = absurd (cc)
prepend-eq_kept s (kept t) out e = (t, refl, ground (arith, e))

-- The round of a segment, where the rest is rewritten to bytes that are rewritten to themselves.
segment-rewritten :
    (n a b c d : ℕ) (more out : Bytes)
    → (a == 255) ≡ true
    → (b == 255) ≡ false
    → (b == 218) ≡ false
    → ((t : Bytes)
        → rewrite_segments n (drop (segment_length c d) (a ∷ b ∷ c ∷ d ∷ more)) ≡ kept t
        → rewrite_segments n t ≡ kept t)
    → rewrite_segments (suc n) (a ∷ b ∷ c ∷ d ∷ more) ≡ kept out
    → rewrite_segments (suc n) out ≡ kept out
unfolding kept_segment
segment-rewritten n a b c d more out m f g again e =
    let end = segment_length c d in
    let rest = a ∷ b ∷ c ∷ d ∷ more in
    let segment = take end rest in
    let (t, next, same) =
      prepend-eq_kept (kept_segment b segment) (rewrite_segments n (drop end rest)) out
        (sym (round_segment n a b c d more m f g) ∙ e) in
    let (at_least, at_most) = segment-whole n a b c d more t next in
    let fixed = again t next in
    elim (Bool-cases (keeps_segment b (drop 4 segment))) [
      | inl k ↦
          let stays : kept_segment b segment ≡ segment = rw k refl in
          let shape : out ≡ segment ++ t = same ∙ ap (λ s. s ++ t) stays in
          ap (rewrite_segments (suc n)) shape
          ∙ segment-again n a b c d more t m f g at_least at_most
          ∙ ap (λ s. prepend s (rewrite_segments n t)) stays
          ∙ ap (prepend segment) fixed
          ∙ ap kept (sym shape)
      | inr k ↦
          let gone : kept_segment b segment ≡ [] = rw k refl in
          let shape : out ≡ t = same ∙ ap (λ s. s ++ t) gone in
          ap (rewrite_segments (suc n)) shape
          ∙ rewrite_segments-suc n t (λ z. let no : kept t ≡ out_of_fuel = sym fixed ∙ z in cc)
          ∙ fixed
          ∙ ap kept (sym shape)
    ]

pub rewritten-again :
    (n : ℕ) (rest out : Bytes)
    → rewrite_segments n rest ≡ kept out
    → rewrite_segments n out ≡ kept out
unfolding rewrite_segments
rewritten-again zero rest out e = absurd (cc)
rewritten-again (suc n) [] out e = absurd (cc)
rewritten-again (suc n) (a ∷ []) out e = absurd (cc)
rewritten-again (suc n) (a ∷ b ∷ []) out e = absurd (cc)
rewritten-again (suc n) (a ∷ b ∷ c ∷ []) out e = absurd (cc)
rewritten-again (suc n) (a ∷ b ∷ c ∷ d ∷ more) out e =
    let rest = a ∷ b ∷ c ∷ d ∷ more in
    elim (Bool-cases (a == 255)) [
      | inr m ↦ let bad = round_bad n a b c d more m in absurd (cc)
      | inl m ↦ elim (Bool-cases (b == 255)) [
        | inl f ↦
            let again =
              rewritten-again n (b ∷ c ∷ d ∷ more) out (sym (round_fill n a b c d more m f) ∙ e) in
            rewrite_segments-suc n out (λ k. let no : kept out ≡ out_of_fuel = sym again ∙ k in cc)
            ∙ again
        | inr f ↦ elim (Bool-cases (b == 218)) [
          | inl g ↦ elim (Option-cases (until_end rest)) [
            | inl h ↦
                let threw_there = round_scan n a b c d more m f g ∙ ap keep_scan h in absurd (cc)
            | inr (s, h) ↦
                let kept_there = round_scan n a b c d more m f g ∙ ap keep_scan h in
                let same : s ≡ out = ground (arith, kept_there, e) in
                scan-again n a b c d more out m g (h ∙ ap some same)
          ]
          | inr g ↦
              segment-rewritten n a b c d more out m f g
                (rewritten-again n (drop (segment_length c d) rest)) e
        ]
      ]
    ]
