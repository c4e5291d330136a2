-- ===== src/Conversion/Quota/Daily.antt =====
-- The count of a subject's files of a day.
use backend.Prelude.{
  ℕ, ◌+◌, ◌≤◌, ◌≡◌, refl, false, ltb, Bool-cases, inl, inr, List, [], ◌∷◌, ◌++◌, none, some, arith,
  Option-cases, find_unique, update_many,
}
use backend.Conversion.Quota.{DailyUsage, is_usage_of, add_admitted, reserve_daily, remaining_today}
use backend.Conversion.Retention.{purge_usage}

found-added :
    (subject date n : ℕ) (usage : List DailyUsage) (u : DailyUsage)
    → find_unique (is_usage_of subject date) usage ≡ some u
    → find_unique
        (is_usage_of subject date)
        (update_many (is_usage_of subject date) (add_admitted n) usage)
      ≡ some (add_admitted n u)
found-added subject date n [] u h = ground arith
found-added subject date n (v ∷ usage) u h = ground (arith, found-added subject date n usage u)

found-inserted :
    (subject date n : ℕ) (usage : List DailyUsage)
    → find_unique (is_usage_of subject date) usage ≡ none
    → find_unique
        (is_usage_of subject date)
        (usage ++ record { subject = subject; usage_date = date; admitted_files = n } ∷ [])
      ≡ some (record { subject = subject; usage_date = date; admitted_files = n })
found-inserted subject date n [] h = ground arith
found-inserted subject date n (v ∷ usage) h = ground (arith, found-inserted subject date n usage)

-- A reservation of `n` files that succeeds takes exactly `n` from the files that the subject has left
-- on that day.
pub reserve_daily-remaining_today :
    (subject db_date daily_files n : ℕ) (usage usage' : List DailyUsage)
    → reserve_daily subject db_date daily_files n usage ≡ some usage'
    → remaining_today subject db_date daily_files usage' + n
      ≡ remaining_today subject db_date daily_files usage
unfolding reserve_daily remaining_today
reserve_daily-remaining_today subject db_date daily_files n usage usage' h =
    elim (Option-cases (find_unique (is_usage_of subject db_date) usage)) [
      | inl e ↦ let k = found-inserted subject db_date n usage e in ground (arith, k)
      | inr (u, e) ↦ let k = found-added subject db_date n usage u e in ground (arith, k)
    ]

found-purged :
    (subject date cutoff_date : ℕ) (usage : List DailyUsage)
    → cutoff_date ≤ date
    → find_unique (is_usage_of subject date) (purge_usage cutoff_date usage)
      ≡ find_unique (is_usage_of subject date) usage
unfolding purge_usage
found-purged subject date cutoff_date [] h = refl
found-purged subject date cutoff_date (u ∷ usage) h =
    let rest = found-purged subject date cutoff_date usage h in
    elim (Bool-cases (ltb u.usage_date cutoff_date)) [
      | inl e ↦
          rw (e, purge_usage)
            (let other : is_usage_of subject date u ≡ false = ground (arith, e) in rw other rest)
      | inr e ↦ rw (e, purge_usage) (rw rest refl)
    ]

-- The deletion of old counts leaves what a subject may still admit on a day that is not before the
-- cutoff's.
pub purge_usage-remaining_today :
    (subject db_date daily_files cutoff_date : ℕ) (usage : List DailyUsage)
    → cutoff_date ≤ db_date
    → remaining_today subject db_date daily_files (purge_usage cutoff_date usage)
      ≡ remaining_today subject db_date daily_files usage
unfolding remaining_today
purge_usage-remaining_today subject db_date daily_files cutoff_date usage h =
    let same = found-purged subject db_date cutoff_date usage h in rw (same, remaining_today) refl
