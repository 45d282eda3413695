-- ===== src/Scheduler/Counts.antt =====
-- What a periodic report counts.
use dockkeep.Prelude.{
  ℕ, suc, ◌+◌, ◌≡◌, refl, ap, ◌∙◌, Bool, true, false, if-holds, String, Option, some, List, [], ◌∷◌,
  if◌then◌else◌, arith, ◌==◌, eq_iff,
}
use dockkeep.Prelude.Dict.{Dict, lookup, insert, lookup-insert}
use dockkeep.Manager.{RunStatus}
use dockkeep.Notifications.Events.{RunRecord, value}
use dockkeep.Scheduler.Reports.{
  report_statuses, or_zero, count_status, no_counts, report_event_from_records,
}

-- The number of records with this status.
unfoldable pub tally : String → List RunRecord → ℕ
tally v [] = 0
tally v (r ∷ rs) = let rest = tally v rs in if value r.status == v then suc rest else rest

one_more :
    (b : Bool) (x y : Option ℕ) (t : ℕ)
    → (b ≡ true → x ≡ y)
    → or_zero (if b then some (suc (or_zero x)) else y) + t ≡ or_zero y + (if b then suc t else t)
one_more true x y t e = let same = ap or_zero (e refl) in omega (arith, same)
one_more false x y t e = refl

count_status-tally :
    (v : String) (counts : Dict ℕ) (rs : List RunRecord)
    → or_zero (lookup v (count_status counts rs)) ≡ or_zero (lookup v counts) + tally v rs
unfolding count_status tally
count_status-tally v counts [] = omega arith
count_status-tally v counts (r ∷ rs) =
    let k = value r.status in
    let n = suc (or_zero (lookup k counts)) in
    count_status-tally v (insert k n counts) rs
    ∙ ap (λ x. or_zero x + tally v rs) (lookup-insert k v n counts)
    ∙ one_more (k == v) (lookup k counts) (lookup v counts) (tally v rs)
        (λ h. ap (λ x. lookup x counts) ((eq_iff k v).0 h))

no_counts-zero : (v : String) (ss : List RunStatus) → or_zero (lookup v (no_counts ss)) ≡ 0
unfolding lookup
no_counts-zero v [] = refl
no_counts-zero v (s ∷ ss) =
    if-holds (λ x. or_zero x ≡ 0) (value s == v) (some 0) (lookup v (no_counts ss)) refl
      (no_counts-zero v ss)

-- The counts of a report are right: under each status, the number of its runs with that status.
pub report_event-counts :
    (v : String) (window_start window_end now : ℕ) (rs : List RunRecord)
    → or_zero (lookup v (report_event_from_records window_start window_end now rs).status_counts)
      ≡ tally v rs
unfolding report_event_from_records
report_event-counts v window_start window_end now rs =
    count_status-tally v (no_counts report_statuses) rs
    ∙ ap (λ n. n + tally v rs) (no_counts-zero v report_statuses)
    ∙ omega arith
