-- ===== src/Channel/Life.antt =====
-- The life of the channel as a sequence of atomic steps on its flag word, of whatever threads.
use deprecated_tcode.Common.{
  ℕ, suc, ◌+◌, ◌%◌, ◌<◌, ◌≡◌, ◌≢◌, refl, sym, ◌∙◌, ap, Bool, true, false, List, [], ◌∷◌, ◌++◌,
  arith, ◌==◌, if◌then◌else◌,
}
use mathlib.Core.Path.{subst}
use deprecated_tcode.Common.Words.{int_mod}
use deprecated_tcode.Channel.{
  Channel, Task, closes, ends, opens, writes, error_flag, close_flag, reset_bit, is_open, contains,
  close, add_ref, release, create,
}
use deprecated_tcode.Channel.Flag.{
  bit, word, reset_error, word_small, close_open, close_closed, is_open-word, release_ends,
  contains-word,
}

-- Who holds a reference takes another one, or gives it back; anyone closes; and the closure that
-- `close` posted, which still holds the reference of `fire_on_open`, takes the mark of the error.
-- The count stays below the bits. What the run loop does to the queue is left out: it only grows.
pub data Step : Channel → Channel → Type 0 where
  takes :
      (c : Channel) (e k : Bool) (n : ℕ)
      → c.flag ≡ word e k n
      → c.flag ≢ 0
      → n + 1 < error_flag
      → Step c (add_ref c)
  gives :
      (c : Channel) (e k : Bool) (n : ℕ)
      → c.flag ≡ word e k (n + 1)
      → n + 1 < error_flag
      → Step c (release c)
  closing : (ec : ℕ) (c : Channel) → Step c (close ec c)
  erring :
      (c : Channel) (e : Bool) (n : ℕ)
      → c.flag ≡ word e false (n + 1)
      → n + 1 < error_flag
      → Step c (record c { flag = (reset_bit c.flag error_flag).1 })

pub data Reached : Channel → Type 0 where
  new : Reached create
  next : (c d : Channel) → Reached c → Step c d → Reached d

-- How many closures of `close`, and of the end, were posted.
unfoldable pub closings : List Task → ℕ
closings [] = 0
closings (closes _ ∷ ts) = suc (closings ts)
closings (ends ∷ ts) = closings ts
closings (opens _ ∷ ts) = closings ts
closings (writes _ ∷ ts) = closings ts

unfoldable pub endings : List Task → ℕ
endings [] = 0
endings (closes _ ∷ ts) = endings ts
endings (ends ∷ ts) = suc (endings ts)
endings (opens _ ∷ ts) = endings ts
endings (writes _ ∷ ts) = endings ts

closings-append : (ts us : List Task) → closings (ts ++ us) ≡ closings ts + closings us
unfolding closings
closings-append [] us = omega arith
closings-append (closes _ ∷ ts) us = omega (arith, closings-append ts us)
closings-append (ends ∷ ts) us = closings-append ts us
closings-append (opens _ ∷ ts) us = closings-append ts us
closings-append (writes _ ∷ ts) us = closings-append ts us

endings-append : (ts us : List Task) → endings (ts ++ us) ≡ endings ts + endings us
unfolding endings
endings-append [] us = omega arith
endings-append (closes _ ∷ ts) us = endings-append ts us
endings-append (ends ∷ ts) us = omega (arith, endings-append ts us)
endings-append (opens _ ∷ ts) us = endings-append ts us
endings-append (writes _ ∷ ts) us = endings-append ts us

pub record IsAlive (c : Channel) : Type 0 where
  pub no_error : Bool
  pub no_close : Bool
  pub count : ℕ
  pub flag : c.flag ≡ word no_error no_close count
  pub below : count < error_flag
  pub first : no_close ≡ true → no_error ≡ true
  pub one_close : closings c.queue + bit no_close ≡ 1
  pub one_end : endings c.queue + (if c.flag == 0 then 0 else 1) ≡ 1

create-IsAlive : IsAlive create
unfolding create closings endings
create-IsAlive = record {
  no_error = true;
  no_close = true;
  count = 0;
  flag = omega arith;
  below = omega arith;
  first = λ _. refl;
  one_close = omega arith;
  one_end = omega arith;
}

marks :
    {c : Channel} (a : IsAlive c) (e k : Bool) (n : ℕ)
    → c.flag ≡ word e k n
    → n < error_flag
    → (a.no_error ≡ e) × (a.no_close ≡ k)
marks a e k n is h =
    let same : word a.no_error a.no_close a.count ≡ word e k n = sym a.flag ∙ is in
    let mine = contains-word a.no_error a.no_close a.count a.below in
    let other = contains-word e k n h in
    (
      sym mine.1 ∙ ap (λ v. contains v error_flag) same ∙ other.1,
      sym mine.0 ∙ ap (λ v. contains v close_flag) same ∙ other.0,
    )

takes-IsAlive :
    (c : Channel) (e k : Bool) (n : ℕ)
    → c.flag ≡ word e k n
    → c.flag ≢ 0
    → n + 1 < error_flag
    → IsAlive c
    → IsAlive (add_ref c)
unfolding add_ref
takes-IsAlive c e k n is alive fits a =
    let (same_e, same_k) = marks a e k n is (omega (arith, fits)) in
    let f : (c.flag + 1) % int_mod ≡ word e k (n + 1) =
      omega (arith, is, word_small e k n (omega (arith, fits))) in
    record {
      no_error = e;
      no_close = k;
      count = n + 1;
      flag = f;
      below = fits;
      first = λ h. sym same_e ∙ a.first (same_k ∙ h);
      one_close = rw (sym same_k) a.one_close;
      one_end =
          let nz : (c.flag + 1) % int_mod ≢ 0 = omega (arith, f) in
          ground (arith, a.one_end, alive, nz);
    }

closings_end : (b : Bool) → closings (if b then ends ∷ [] else []) ≡ 0
unfolding closings
closings_end true = refl
closings_end false = refl

closings_one : (ec : ℕ) → closings (closes ec ∷ []) ≡ 1
unfolding closings
closings_one ec = refl

endings_one : (ec : ℕ) → endings (closes ec ∷ []) ≡ 0
unfolding endings
endings_one ec = refl

endings_end : (b : Bool) → endings (if b then ends ∷ [] else []) ≡ bit b
unfolding endings
endings_end true = refl
endings_end false = refl

gives-IsAlive :
    (c : Channel) (e k : Bool) (n : ℕ)
    → c.flag ≡ word e k (n + 1)
    → n + 1 < error_flag
    → IsAlive c
    → IsAlive (release c)
gives-IsAlive c e k n is fits a =
    let (same_e, same_k) = marks a e k (n + 1) is fits in
    let (flag, queue) = release_ends c e k n is fits in
    record {
      no_error = e;
      no_close = k;
      count = n;
      flag = flag;
      below = omega (arith, fits);
      first = λ h. sym same_e ∙ a.first (same_k ∙ h);
      one_close =
          let q = ap closings queue ∙ closings-append c.queue _ in
          let k0 = closings_end (word e k n == 0) in
          omega (arith, q, k0, a.one_close, ap bit same_k);
      one_end =
          let q = ap endings queue ∙ endings-append c.queue _ in
          let here : c.flag ≢ 0 = omega (arith, is) in
          ground (arith, q, endings_end (word e k n == 0), a.one_end, here, flag);
    }

closing-IsAlive :
    (ec : ℕ) (c : Channel) (k : Bool) (a : IsAlive c) → a.no_close ≡ k → IsAlive (close ec c)
closing-IsAlive ec c true a opened =
    let is : c.flag ≡ word a.no_error true a.count =
      a.flag ∙ ap (λ k. word a.no_error k a.count) opened in
    let d = record c { flag = word a.no_error false a.count; queue = c.queue ++ closes ec ∷ [] } in
    let alive : IsAlive d = record {
      no_error = a.no_error;
      no_close = false;
      count = a.count;
      flag = refl;
      below = a.below;
      first = λ h. absurd (ground (arith, h));
      one_close = omega (
        arith,
        closings-append c.queue (closes ec ∷ []),
        closings_one ec,
        a.one_close,
        ap bit opened,
      );
      one_end =
          let set : c.flag ≢ 0 = omega (arith, is, ap bit (a.first opened)) in
          let still : word a.no_error false a.count ≢ 0 = omega (arith, ap bit (a.first opened)) in
          let q = endings-append c.queue (closes ec ∷ []) in
          ground (arith, q, endings_one ec, a.one_end, set, still);
    } in
    subst IsAlive (sym (close_open ec c a.no_error a.count a.below is)) alive
closing-IsAlive ec c false a closed =
    let is : c.flag ≡ word a.no_error false a.count =
      a.flag ∙ ap (λ k. word a.no_error k a.count) closed in
    subst IsAlive (sym (close_closed ec c a.no_error a.count a.below is)) a

erring-IsAlive :
    (c : Channel) (e : Bool) (n : ℕ)
    → c.flag ≡ word e false (n + 1)
    → n + 1 < error_flag
    → IsAlive c
    → IsAlive (record c { flag = (reset_bit c.flag error_flag).1 })
erring-IsAlive c e n is fits a =
    let r : (reset_bit c.flag error_flag).1 ≡ word false false (n + 1) =
      ap (λ v. (reset_bit v error_flag).1) is ∙ ap (λ q. q.1) (reset_error e false (n + 1) fits) in
    let (same_e, same_k) = marks a e false (n + 1) is fits in
    record {
      no_error = false;
      no_close = false;
      count = n + 1;
      flag = r;
      below = fits;
      first = λ h. absurd (ground (arith, h));
      one_close = omega (arith, a.one_close, ap bit same_k);
      one_end =
          let set : c.flag ≢ 0 = omega (arith, is) in
          let still : (reset_bit c.flag error_flag).1 ≢ 0 = omega (arith, r) in
          ground (arith, a.one_end, set, still);
    }

Step-IsAlive : {c d : Channel} → Step c d → IsAlive c → IsAlive d
Step-IsAlive (takes c e k n is alive fits) a = takes-IsAlive c e k n is alive fits a
Step-IsAlive (gives c e k n is fits) a = gives-IsAlive c e k n is fits a
Step-IsAlive (closing ec c) a = closing-IsAlive ec c a.no_close a refl
Step-IsAlive (erring c e n is fits) a = erring-IsAlive c e n is fits a

Reached-IsAlive : {c : Channel} → Reached c → IsAlive c
Reached-IsAlive new = create-IsAlive
Reached-IsAlive (next c d r s) = Step-IsAlive s (Reached-IsAlive r)

-- However references are taken and given back and the channel is closed, from its construction on:
-- exactly one closure of a close was posted if the channel is closed, and none if it is open; and
-- the closure that deletes it was posted once if its flag word is 0, and not at all if it is not.
pub Reached-once :
    (c : Channel)
    → Reached c
    → (closings c.queue ≡ (if is_open c then 0 else 1))
      × (endings c.queue ≡ (if c.flag == 0 then 1 else 0))
Reached-once c r =
    let a = Reached-IsAlive r in
    let o = is_open-word 0 c a.no_error a.count a.below a.no_close a.flag in
    (ground (arith, o, a.one_close), ground (arith, a.one_end))
