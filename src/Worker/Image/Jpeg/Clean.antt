-- ===== src/Worker/Image/Jpeg/Clean.antt =====
-- What `rewriteJpegMetadata` makes carries no metadata but the orientation that it was given, as
-- `carriesOnlyAllowedTypes` finds: rewriting it without one gives the same as rewriting the input.
use backend.Prelude.{
  ℕ, suc, ◌≡◌, refl, sym, ap, ◌∙◌, inl, inr, false, [], ◌∷◌, ◌++◌, ◌==◌, Bool-cases, length,
}
use backend.Worker.Image.Bytes.{Bytes, out_of_fuel, kept, prepend, exif_orientation_block}
use backend.Worker.Image.Jpeg.{
  rewrite_segments, orientation_segment, rewrite_jpeg_metadata, kept_segment, keeps_segment,
  is_decoding_hint, exif_prefix,
}
use backend.Worker.Image.Jpeg.Terminates.{round_segment}
use backend.Worker.Image.Jpeg.Rewritten.{
  rewritten-again, rewrite_segments-suc, rewrite_segments-enough, prepend-eq_kept,
}

orientation-dropped :
    (n orientation : ℕ) (t : Bytes)
    → (orientation == 1) ≡ false
    → rewrite_segments n t ≡ kept t
    → rewrite_segments (suc n) (orientation_segment orientation ++ t) ≡ kept t
unfolding orientation_segment exif_orientation_block kept_segment keeps_segment is_decoding_hint
orientation-dropped n orientation t e again =
    let tail = exif_prefix ++ exif_orientation_block orientation in
    rw e (round_segment n 255 225 0 34 (tail ++ t) refl refl refl ∙ ap (prepend []) again)

segments-dropped :
    (n orientation : ℕ) (t : Bytes)
    → rewrite_segments n t ≡ kept t
    → let rest = orientation_segment orientation ++ t in
      rewrite_segments (suc (length rest)) rest ≡ kept t
unfolding orientation_segment
segments-dropped n orientation t again = elim (Bool-cases (orientation == 1)) [
  | inl e ↦ rw e (rewrite_segments-enough n t t again)
  | inr e ↦
      rewrite_segments-enough (suc n) (orientation_segment orientation ++ t) t
        (orientation-dropped n orientation t e again)
]

kept-suc :
    (n : ℕ) (rest t : Bytes)
    → rewrite_segments n rest ≡ kept t
    → rewrite_segments (suc n) rest ≡ kept t
kept-suc n rest t e =
    rewrite_segments-suc n rest (λ k. let no : kept t ≡ out_of_fuel = sym e ∙ k in cc) ∙ e

-- Where an input is rewritten with any orientation, rewriting the result without one gives what
-- rewriting the input without one gives.
pub rewrite_jpeg_metadata-again :
    (input out : Bytes) (orientation : ℕ)
    → rewrite_jpeg_metadata input orientation ≡ kept out
    → rewrite_jpeg_metadata out 1 ≡ rewrite_jpeg_metadata input 1
unfolding rewrite_jpeg_metadata rewrite_segments
rewrite_jpeg_metadata-again [] out orientation e = absurd (cc)
rewrite_jpeg_metadata-again (x ∷ []) out orientation e = absurd (cc)
rewrite_jpeg_metadata-again (x ∷ y ∷ rest) out orientation e =
    let n = suc (suc (suc (length rest))) in
    let segment = orientation_segment orientation in
    let (t, now, shape) = prepend-eq_kept (x ∷ y ∷ segment) (rewrite_segments n rest) out e in
    let again = rewritten-again n rest t now in
    let dropped = segments-dropped n orientation t again in
    let left = segment ++ t in
    let m = suc (length left) in
    let more = kept-suc (suc m) left t (kept-suc m left t dropped) in
    ap (λ o. rewrite_jpeg_metadata o 1) shape
    ∙ ap (prepend (x ∷ y ∷ orientation_segment 1)) (more ∙ sym now)
