-- ===== src/Worker/Image/Walks/Ends.antt =====
-- The walks over the containers end: each round goes on by eight bytes at least.
use backend.Prelude.{
  ℕ, zero, suc, ◌+◌, ◌-◌, ◌<◌, ◌≢◌, inl, inr, [], ◌∷◌, leb, ltb, min, length, take, drop,
  length-drop, Bool-cases, arith, if◌then◌else◌,
}
use backend.Text.{text_eq, codes}
use backend.Worker.Image.Bytes.{Bytes, Walk, out_of_fuel, from_be, from_le}
use backend.Worker.Image.Jpeg.Terminates.{rewrite_jpeg_metadata-ends}
use backend.Worker.Image.Walks.{
  png_walk, webp_end, webp_walk, webp_clean, Items, no_fuel, join_items, items, refused, entry_walk,
  child_walk, box_walk, items_clean, same_bytes, ImageFormat, jpeg, png, webp, avif,
  carries_only_allowed_types,
}

png_walk-fuel : (n : ℕ) (rest : Bytes) → length rest < n → png_walk n rest ≢ out_of_fuel
unfolding png_walk
png_walk-fuel zero rest h e = absurd (omega (arith, h))
png_walk-fuel (suc n) (a ∷ b ∷ c ∷ d ∷ t ∷ u ∷ v ∷ w ∷ more) h e =
    let rest = a ∷ b ∷ c ∷ d ∷ t ∷ u ∷ v ∷ w ∷ more in
    let end = 12 + from_be a b c d in
    let shorter = length-drop end rest in
    let goes = png_walk-fuel n (drop end rest) (omega (arith, h, shorter)) in
    ground (arith, e, goes)
png_walk-fuel (suc n) _ h e = ground (arith, e)

webp_walk-fuel : (n : ℕ) (rest : Bytes) → length rest < n → webp_walk n rest ≢ out_of_fuel
unfolding webp_walk
webp_walk-fuel zero rest h e = absurd (omega (arith, h))
webp_walk-fuel (suc n) (a ∷ b ∷ c ∷ d ∷ t ∷ u ∷ v ∷ w ∷ more) h e =
    let rest = a ∷ b ∷ c ∷ d ∷ t ∷ u ∷ v ∷ w ∷ more in
    let end = webp_end (from_le t u v w) in
    let shorter = length-drop end rest in
    let goes = webp_walk-fuel n (drop end rest) (omega (arith, h, shorter)) in
    ground (arith, e, goes)
webp_walk-fuel (suc n) _ h e = ground (arith, e)

join_items-fuel : (x y : Items) → x ≢ no_fuel → y ≢ no_fuel → join_items x y ≢ no_fuel
join_items-fuel x y h k e = ground (arith, h, k, e)

entry_walk-fuel :
    (n within : ℕ) (entry : Bytes) → length entry < n → entry_walk n within entry ≢ no_fuel
unfolding entry_walk
entry_walk-fuel zero within entry h e = absurd (omega (arith, h))
entry_walk-fuel (suc n) within (a ∷ b ∷ c ∷ d ∷ t ∷ u ∷ v ∷ w ∷ version ∷ more) h e =
    let entry = a ∷ b ∷ c ∷ d ∷ t ∷ u ∷ v ∷ w ∷ version ∷ more in
    let end = from_be a b c d in
    elim (Bool-cases (ltb end 20)) [
      | inl f ↦ ground (arith, e, f)
      | inr f ↦
          let shorter = length-drop end entry in
          let goes =
            entry_walk-fuel n (within - end) (drop end entry) (ground (arith, h, shorter, f)) in
          ground (arith, e, f, goes)
    ]
entry_walk-fuel (suc n) within _ h e = ground (arith, e)

child_walk-fuel :
    (n within : ℕ) (child : Bytes) → length child < n → child_walk n within child ≢ no_fuel
unfolding child_walk
child_walk-fuel zero within child h e = absurd (omega (arith, h))
child_walk-fuel (suc n) within (a ∷ b ∷ c ∷ d ∷ t ∷ u ∷ v ∷ w ∷ more) h e =
    let child = a ∷ b ∷ c ∷ d ∷ t ∷ u ∷ v ∷ w ∷ more in
    let end = from_be a b c d in
    let header = 12 + (if text_eq (take 1 more) (0 ∷ []) then 2 else 4) in
    elim (Bool-cases (ltb end 8)) [
      | inl f ↦ ground (arith, e, f)
      | inr f ↦
          let shorter = length-drop end child in
          let goes =
            child_walk-fuel n (within - end) (drop end child) (ground (arith, h, shorter, f)) in
          let entries =
            entry_walk-fuel (suc (length child)) (min end (length child) - header)
              (drop header child) (let l = length-drop header child in omega (arith, l)) in
          let joined =
            join_items-fuel
              (entry_walk (suc (length child)) (min end (length child) - header)
                (drop header child))
              (child_walk n (within - end) (drop end child)) entries goes in
          ground (arith, e, f, goes, joined)
    ]
child_walk-fuel (suc n) within _ h e = ground (arith, e)

box_walk-fuel : (n : ℕ) (rest : Bytes) → length rest < n → box_walk n rest ≢ no_fuel
unfolding box_walk
box_walk-fuel zero rest h e = absurd (omega (arith, h))
box_walk-fuel (suc n) [] h e = ground (arith, e)
box_walk-fuel (suc n) (a ∷ b ∷ c ∷ d ∷ t ∷ u ∷ v ∷ w ∷ more) h e =
    let rest = a ∷ b ∷ c ∷ d ∷ t ∷ u ∷ v ∷ w ∷ more in
    let end = from_be a b c d in
    let within = min end (length rest) - 12 in
    elim (Bool-cases (ltb end 8)) [
      | inl f ↦ ground (arith, e, f)
      | inr f ↦
          let shorter = length-drop end rest in
          let goes = box_walk-fuel n (drop end rest) (ground (arith, h, shorter, f)) in
          let inner =
            child_walk-fuel (suc (length rest)) within (drop 12 rest)
              (let l = length-drop 12 rest in omega (arith, l)) in
          let children : Items =
            if text_eq (t ∷ u ∷ v ∷ w ∷ []) (codes "meta")
            then child_walk (suc (length rest)) within (drop 12 rest)
            else items [] in
          let next : Items =
            if leb end (length rest) then box_walk n (drop end rest) else refused in
          let some_children : children ≢ no_fuel = λ k. ground (arith, k, inner) in
          let some_next : next ≢ no_fuel = λ k. ground (arith, k, goes) in
          let joined = join_items-fuel children next some_children some_next in
          ground (arith, e, f, joined)
    ]
box_walk-fuel (suc n) _ h e = ground (arith, e)

items_clean-fuel : (x : Items) → x ≢ no_fuel → items_clean x ≢ out_of_fuel
items_clean-fuel x h e = ground (arith, h, e)

same_bytes-fuel :
    (input : Bytes) (w : Walk) → w ≢ Walk.out_of_fuel → same_bytes input w ≢ out_of_fuel
same_bytes-fuel input w h e = ground (arith, h, e)

webp_clean-fuel : (input : Bytes) → webp_clean input ≢ out_of_fuel
unfolding webp_clean
webp_clean-fuel (r ∷ i ∷ f ∷ g ∷ a ∷ b ∷ c ∷ d ∷ more) e =
    let input = r ∷ i ∷ f ∷ g ∷ a ∷ b ∷ c ∷ d ∷ more in
    let shorter = length-drop 12 input in
    let walk = webp_walk-fuel (suc (length input)) (drop 12 input) (omega (arith, shorter)) in
    ground (arith, e, walk)
webp_clean-fuel _ e = ground (arith, e)

-- `carriesOnlyAllowedTypes` ends on any input of any format: each of its loops needs at most one
-- round for each byte and one more.
pub carries_only_allowed_types-ends :
    (format : ImageFormat) (input : Bytes) → carries_only_allowed_types format input ≢ out_of_fuel
unfolding carries_only_allowed_types
carries_only_allowed_types-ends jpeg input =
    same_bytes-fuel input _ (rewrite_jpeg_metadata-ends input 1)
carries_only_allowed_types-ends png input =
    let shorter = length-drop 8 input in
    png_walk-fuel (suc (length input)) (drop 8 input) (omega (arith, shorter))
carries_only_allowed_types-ends webp input = webp_clean-fuel input
carries_only_allowed_types-ends avif input =
    items_clean-fuel _ (box_walk-fuel (suc (length input)) input (omega arith))
