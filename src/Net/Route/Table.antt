-- ===== src/Net/Route/Table.antt =====
-- What the table holds after a change.
use prettyos.Common.{
  ℕ, ◌≡◌, inl, inr, refl, sym, ap, ◌∙◌, subst, Bool, true, false, Option, some, List, [], ◌∷◌, ◌++◌,
  All, All-left, All-right, All-append, arith, Bool-cases,
}
use mathlib.Core.Option.{some_inj, none-ne-some}
use prettyos.Net.Route.{
  Device, Rtable, Request, drop_if, same_net, includes, insert_after, insert_route, put_entry,
  UnsetRt, ip_rt_add, ip_rt_flush, rt_del, ip_rt_route, ip_rt_local,
}

-- No two entries have the same destination and mask.
abbrev pub Unique : List Rtable → Type 0
Unique [] = Unit
Unique (r ∷ rs) = All (λ (s : Rtable). same_net r.rt_dst r.rt_mask s ≡ false) rs × Unique rs

All-drop_if :
    (P : Rtable → Type 0) (test : Rtable → Bool) (rs : List Rtable)
    → All P rs
    → All P (drop_if test rs)
unfolding drop_if
All-drop_if P test [] a = tt
All-drop_if P test (r ∷ rs) a = elim (Bool-cases (test r)) [
  | inl c ↦ rw c (All-drop_if P test rs a.1)
  | inr c ↦ rw c (a.0, All-drop_if P test rs a.1)
]

-- What the walk leaves does not pass the test.
drop_if_fails :
    (test : Rtable → Bool) (rs : List Rtable) → All (λ r. test r ≡ false) (drop_if test rs)
unfolding drop_if
drop_if_fails test [] = tt
drop_if_fails test (r ∷ rs) = elim (Bool-cases (test r)) [
  | inl c ↦ rw c (drop_if_fails test rs)
  | inr c ↦ rw c (c, drop_if_fails test rs)
]

pub drop_if-Unique :
    (test : Rtable → Bool) (rs : List Rtable) → Unique rs → Unique (drop_if test rs)
unfolding drop_if
drop_if-Unique test [] u = tt
drop_if-Unique test (r ∷ rs) u = elim (Bool-cases (test r)) [
  | inl c ↦ rw c (drop_if-Unique test rs u.1)
  | inr c ↦ rw c (
    All-drop_if (λ (s : Rtable). same_net r.rt_dst r.rt_mask s ≡ false) test rs u.0,
    drop_if-Unique test rs u.1,
  )
]

-- The first entry, if there is one, has a mask that does not include the given one.
abbrev pub Stops : ℕ → List Rtable → Type 0
Stops mask [] = Unit
Stops mask (r ∷ rs) = includes mask r ≡ false

-- The new entry stands behind the entries at the front whose masks include its own, and before the others.
pub record Added (new : Rtable) (old : List Rtable) (table : List Rtable) : Type 0 where
  pub front : List Rtable
  pub back : List Rtable
  pub old_list : old ≡ front ++ back
  pub new_list : table ≡ front ++ (new ∷ back)
  pub inside : All (λ r. includes new.rt_mask r ≡ true) front
  pub stops : Stops new.rt_mask back

insert_after-Added : (new : Rtable) (rs : List Rtable) → Added new rs (insert_after new rs)
unfolding insert_after
insert_after-Added new [] = record {
  front = [];
  back = [];
  old_list = refl;
  new_list = refl;
  inside = tt;
  stops = tt;
}
insert_after-Added new (x ∷ xs) = elim (Bool-cases (includes new.rt_mask x)) [
  | inl c ↦
      let a = insert_after-Added new xs in
      rw c (record {
        front = x ∷ a.front;
        back = a.back;
        old_list = ap (◌∷◌ x) a.old_list;
        new_list = ap (◌∷◌ x) a.new_list;
        inside = (c, a.inside);
        stops = a.stops;
      })
  | inr c ↦ rw c (record {
    front = [];
    back = x ∷ xs;
    old_list = refl;
    new_list = refl;
    inside = tt;
    stops = c;
  })
]

insert_route-Added :
    (new : Rtable) (rs table : List Rtable) → insert_route new rs ≡ some table → Added new rs table
unfolding insert_route
insert_route-Added new [] table e = absurd (none-ne-some table e)
insert_route-Added new (x ∷ xs) table e = elim (Bool-cases (includes new.rt_mask x)) [
  | inl c ↦
      let a = insert_after-Added new xs in
      let t : x ∷ insert_after new xs ≡ table = some_inj.0 (rw c at (e)) in
      record {
        front = x ∷ a.front;
        back = a.back;
        old_list = ap (◌∷◌ x) a.old_list;
        new_list = sym t ∙ ap (◌∷◌ x) a.new_list;
        inside = (c, a.inside);
        stops = a.stops;
      }
  | inr c ↦ absurd (none-ne-some table (rw c at (e)))
]

same_sym :
    (r s : Rtable) → same_net r.rt_dst r.rt_mask s ≡ false → same_net s.rt_dst s.rt_mask r ≡ false
unfolding same_net
same_sym r s e = ground arith

Unique-insert :
    (new : Rtable) (xs ys : List Rtable)
    → Unique (xs ++ ys)
    → All (λ r. same_net new.rt_dst new.rt_mask r ≡ false) (xs ++ ys)
    → Unique (xs ++ (new ∷ ys))
Unique-insert new [] ys u a = (a, u)
Unique-insert new (x ∷ xs) ys u a =
    let P : Rtable → Type 0 = λ (s : Rtable). same_net x.rt_dst x.rt_mask s ≡ false in
    (
      All-append P xs (new ∷ ys) (All-left P xs ys u.0) (same_sym new x a.0, All-right P xs ys u.0),
      Unique-insert new xs ys u.1 a.1,
    )

pub put_entry-Added :
    (new : Rtable) (old table : List Rtable)
    → put_entry new old ≡ some table
    → Added new (drop_if (same_net new.rt_dst new.rt_mask) old) table
unfolding put_entry
put_entry-Added new old table e =
    insert_route-Added new (drop_if (same_net new.rt_dst new.rt_mask) old) table e

put_entry-Unique :
    (new : Rtable) (old table : List Rtable)
    → put_entry new old ≡ some table
    → Unique old
    → Unique table
put_entry-Unique new old table e u =
    let test = same_net new.rt_dst new.rt_mask in
    let a = put_entry-Added new old table e in
    subst Unique (sym a.new_list) (
      Unique-insert new a.front a.back (subst Unique a.old_list (drop_if-Unique test old u))
        (subst (All (λ r. test r ≡ false)) a.old_list (drop_if_fails test old)))

-- A change of the table; a call of `ip_rt_add` whose writes through an unset pointer are not followed is none.
pub data Step (devices : ℕ → Device) : List Rtable → List Rtable → Type 0 where
  added :
      {old table : List Rtable} (rt : UnsetRt) (q : Request)
      → ip_rt_add devices rt q old ≡ some table
      → Step devices old table
  deleted :
      {old : List Rtable} (named : Option (ℕ → Bool)) (dst : ℕ)
      → Step devices old (rt_del named dst old)
  flushed : {old : List Rtable} (dev : ℕ) → Step devices old (ip_rt_flush dev old)
  routed : {old : List Rtable} (daddr : ℕ) → Step devices old (ip_rt_route devices daddr old).1
  routed_local :
      {old : List Rtable} (daddr : ℕ) → Step devices old (ip_rt_local devices daddr old).1

pub data Reach (devices : ℕ → Device) : List Rtable → List Rtable → Type 0 where
  here : {t : List Rtable} → Reach devices t t
  then_step : {t u v : List Rtable} → Reach devices t u → Step devices u v → Reach devices t v
