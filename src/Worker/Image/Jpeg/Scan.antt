-- ===== src/Worker/Image/Jpeg/Scan.antt =====
-- The end of a scan: what `indexOf(JPEG_END)` finds is found again in what it keeps.
use backend.Prelude.{
  ℕ, ◌≡◌, ap, ◌∙◌, inl, inr, false, ◌&&◌, [], ◌∷◌, some, ◌==◌, Bool-cases, Option-cases, arith,
}
use backend.Worker.Image.Bytes.{Bytes}
use backend.Worker.Image.Jpeg.{until_end}

pub until_end-two :
    (s out : Bytes) → until_end s ≡ some out → (x : ℕ) × (y : ℕ) × (z : Bytes) × (out ≡ x ∷ y ∷ z)
until_end-two [] out e = absurd (cc)
until_end-two (a ∷ []) out e = absurd (cc)
until_end-two (a ∷ b ∷ s) out e = elim (Bool-cases (a == 255 && b == 217)) [
  | inl f ↦ (a, b, [], ground (arith, e, f))
  | inr f ↦ elim (Option-cases (until_end (b ∷ s))) [
    | inl g ↦ absurd (ground (arith, e, f, g))
    | inr (rest, g) ↦
        let (x, y, z, h) = until_end-two (b ∷ s) rest g in (a, x, y ∷ z, ground (arith, e, f, g, h))
  ]
]

until_end-first :
    (a : ℕ) (s out : Bytes) → until_end (a ∷ s) ≡ some out → (t : Bytes) × (out ≡ a ∷ t)
until_end-first a [] out e = absurd (cc)
until_end-first a (b ∷ s) out e = elim (Bool-cases (a == 255 && b == 217)) [
  | inl f ↦ (b ∷ [], ground (arith, e, f))
  | inr f ↦ elim (Option-cases (until_end (b ∷ s))) [
    | inl g ↦ absurd (ground (arith, e, f, g))
    | inr (rest, g) ↦ (rest, ground (arith, e, f, g))
  ]
]

-- The first two bytes stay where they are not an end.
pub until_end-head :
    (a b : ℕ) (s out : Bytes)
    → (a == 255 && b == 217) ≡ false
    → until_end (a ∷ b ∷ s) ≡ some out
    → (t : Bytes) × (out ≡ a ∷ b ∷ t) × (until_end (b ∷ s) ≡ some (b ∷ t))
until_end-head a b s out f e = elim (Option-cases (until_end (b ∷ s))) [
  | inl g ↦ absurd (ground (arith, e, f, g))
  | inr (rest, g) ↦
      let (t, h) = until_end-first b s rest g in (t, ground (arith, e, f, g, h), g ∙ ap some h)
]

pub until_end-again : (s out : Bytes) → until_end s ≡ some out → until_end out ≡ some out
until_end-again [] out e = absurd (cc)
until_end-again (a ∷ []) out e = absurd (cc)
until_end-again (a ∷ b ∷ s) out e = elim (Bool-cases (a == 255 && b == 217)) [
  | inl f ↦
      let same : out ≡ a ∷ b ∷ [] = ground (arith, e, f) in
      let ends : until_end (a ∷ b ∷ []) ≡ some (a ∷ b ∷ []) = ground (arith, f) in rw same ends
  | inr f ↦
      let (t, same, g) = until_end-head a b s out f e in
      let again = until_end-again (b ∷ s) (b ∷ t) g in
      let ends : until_end (a ∷ b ∷ t) ≡ some (a ∷ b ∷ t) = ground (arith, f, again) in rw same ends
]
