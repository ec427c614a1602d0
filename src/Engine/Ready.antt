-- ===== src/Engine/Ready.antt =====
-- The state in which `timer_drain` works, and that a round of it keeps it and comes nearer its end.
use deprecated_tcode.Common.{
  ℕ, ◌+◌, ◌<◌, ◌≡◌, ◌∙◌, ap, Bool, true, false, List, ◌∷◌, arith, All, All-of, Bool-cases, inl, inr,
}
use deprecated_tcode.Common.Maps.{has, Distinct}
use deprecated_tcode.Common.Int.{pos, ◌≤ℤ◌}
use deprecated_tcode.Time.Stamp
use deprecated_tcode.Time.Stamp.{Timestamp}
use deprecated_tcode.Engine.{Engine, due, repeats, insert_timer}
use deprecated_tcode.Engine.Order.{IsSorted, insert_timer-IsSorted, IsSorted-ext, All-outside}
use deprecated_tcode.Engine.Fire.{Fired, repeat_of, next_due, repeats_ext}
use deprecated_tcode.Engine.Rounds.{
  rounds, total, rounds_late, rounds-plus, total-insert_timer, total-cons, total_ext,
  Distinct-insert_timer,
}

abbrev pub again : Engine → ℕ → Bool
again e y = repeats (e.timer y)

-- The timers are sorted by due time, none is scheduled twice, and none repeats backwards.
pub record IsReady (e : Engine) : Type 0 where
  pub sorted : IsSorted (due e) e.timers
  pub distinct : Distinct e.timers
  pub forward : (y : ℕ) → pos 0 ≤ℤ (repeat_of e y).delta

-- The rounds that `timer_drain` takes at most.
abbrev pub total_rounds : Timestamp → Engine → ℕ
total_rounds ts e = total ts (due e) (again e) e.timers

abbrev pub late : Timestamp → Engine → ℕ → Bool
late ts e y = Stamp.less_equal (due e y) ts

module _ {e e' : Engine} {id : ℕ} {rest : List ℕ} (split : e.timers ≡ id ∷ rest) (r : IsReady e)
    (f : Fired e id rest e') where
  pub out : has id rest ≡ false
  out = ground (arith, r.distinct)

  pub again_same : (y : ℕ) → again e' y ≡ again e y
  again_same y = repeats_ext _ _ (f.repeat_same y)

  pub same_rest : All (λ y. due e' y ≡ due e y) rest
  same_rest = All-outside (due e') (due e) id rest out f.due_same

  rest-IsSorted : IsSorted (due e') rest
  rest-IsSorted =
      let whole : IsSorted (due e) (id ∷ rest) = rw split at r.sorted in
      IsSorted-ext (due e) (due e') rest same_rest whole.1

  pub fired-IsReady : IsReady e'
  fired-IsReady =
      let d : Distinct (id ∷ rest) = rw split at r.distinct in
      elim (Bool-cases (again e id)) [
        | inl back ↦
            let t : e'.timers ≡ insert_timer (due e') id rest = rw back at f.timers in
            record {
              sorted = rw t (insert_timer-IsSorted (due e') id rest rest-IsSorted);
              distinct = rw t (Distinct-insert_timer (due e') id rest out d.1);
              forward = λ y. rw (f.repeat_same y) (r.forward y);
            }
        | inr gone ↦
            let t : e'.timers ≡ rest = rw gone at f.timers in
            record {
              sorted = rw t rest-IsSorted;
              distinct = rw t d.1;
              forward = λ y. rw (f.repeat_same y) (r.forward y);
            }
      ]

  total_split :
      (ts : Timestamp)
      → total_rounds ts e ≡ rounds ts (due e id) (again e id) + total ts (due e) (again e) rest
  total_split ts = ap (total ts (due e) (again e)) split ∙ total-cons ts (due e) (again e) id rest

  total_rest :
      (ts : Timestamp) → total ts (due e') (again e') rest ≡ total ts (due e) (again e) rest
  total_rest ts =
      total_ext ts (due e) (due e') (again e) (again e') rest same_rest (All-of rest again_same)

  pub fired_total : (ts : Timestamp) → late ts e id ≡ true → total_rounds ts e' < total_rounds ts e
  fired_total ts l = elim (Bool-cases (again e id)) [
    | inl back ↦
        let t : e'.timers ≡ insert_timer (due e') id rest = rw back at f.timers in
        let n : due e' id ≡ next_due e id = rw back at f.due_next in
        let b : again e' id ≡ true = again_same id ∙ back in
        let less = rounds-plus ts (e.timer id) back (r.forward id) l in
        let now : total_rounds ts e'
            ≡ rounds ts (next_due e id) true + total ts (due e) (again e) rest =
          ap (total ts (due e') (again e')) t
          ∙ total-insert_timer ts (due e') (due e') (again e') id rest
          ∙ (λ i. rounds ts (n i) (b i) + total_rest ts i) in
        let before : total_rounds ts e
            ≡ rounds ts (due e id) true + total ts (due e) (again e) rest =
          total_split ts ∙ (λ i. rounds ts (due e id) (back i) + total ts (due e) (again e) rest) in
        omega (arith, less, now, before)
    | inr gone ↦
        let t : e'.timers ≡ rest = rw gone at f.timers in
        let now : total_rounds ts e' ≡ total ts (due e) (again e) rest =
          ap (total ts (due e') (again e')) t ∙ total_rest ts in
        omega (arith, rounds_late ts (due e id) (again e id) l, now, total_split ts)
  ]
