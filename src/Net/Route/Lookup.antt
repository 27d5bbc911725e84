-- ===== src/Net/Route/Lookup.antt =====
-- The entry that a look-up gives.
use prettyos.Common.{
  ℕ, ◌≡◌, ◌≢◌, refl, ap, subst, ◌∙◌, Bool, true, false, none, some, List, [], ◌∷◌, ◌++◌, All,
  All-left, ◌==◌, if◌then◌else◌, arith,
}
use prettyos.Net.Route.{
  Device, Rtable, Routed, at_null, no_route, route, covers, is_local, first_match, use_first, used,
  route_to, ip_rt_route, ip_rt_local, put_entry, includes, drop_if, same_net,
}
use prettyos.Net.Route.Table.{put_entry-Added}

first_match_at :
    (test : Rtable → Bool) (xs : List Rtable) (r : Rtable) (ys : List Rtable)
    → All (λ x. test x ≡ false) xs
    → test r ≡ true
    → (first_match test (xs ++ (r ∷ ys)) ≡ some r)
      × (use_first test (xs ++ (r ∷ ys)) ≡ xs ++ (used r ∷ ys))
unfolding first_match use_first
first_match_at test [] r ys a e = (rw e refl, rw e refl)
first_match_at test (x ∷ xs) r ys a e =
    let (p, q) = first_match_at test xs r ys a.1 e in (rw a.0 p, rw a.0 (ap (◌∷◌ x) q))

first_match-none :
    (test : Rtable → Bool) (xs : List Rtable)
    → All (λ x. test x ≡ false) xs
    → first_match test xs ≡ none
unfolding first_match
first_match-none test [] a = refl
first_match-none test (x ∷ xs) a = rw a.0 (first_match-none test xs a.1)

-- The outcome of a look-up for the entry r, between the entries xs and ys
unfoldable pub outcome :
    (ℕ → Device) → ℕ → List Rtable → Rtable → List Rtable → Routed × List Rtable
outcome devices daddr xs r ys =
    let src = (devices r.rt_dev).pa_addr in
    if daddr == src
    then (no_route src, xs ++ (r ∷ ys))
    else (route (used r) src, xs ++ (used r ∷ ys))

route_to_at :
    (devices : ℕ → Device) (daddr : ℕ) (test : Rtable → Bool) (xs : List Rtable) (r : Rtable)
    (ys : List Rtable)
    → All (λ x. test x ≡ false) xs
    → test r ≡ true
    → route_to devices daddr test (xs ++ (r ∷ ys)) (first_match test (xs ++ (r ∷ ys)))
      ≡ outcome devices daddr xs r ys
unfolding route_to outcome
route_to_at devices daddr test xs r ys a e =
    let (p, q) = first_match_at test xs r ys a e in
    let src = (devices r.rt_dev).pa_addr in
    ap (route_to devices daddr test (xs ++ (r ∷ ys))) p
    ∙ ap (λ t. if daddr == src then (no_route src, xs ++ (r ∷ ys)) else (route (used r) src, t)) q

-- `ip_rt_route` takes the first entry that covers the address: it counts the use and gives that entry with the
-- address of its device, or no route where that is the address itself, and changes nothing else; where no
-- entry covers the address it reads at NULL.
ip_rt_route_lem :
    (devices : ℕ → Device) (daddr : ℕ) (xs : List Rtable) (r : Rtable) (ys : List Rtable)
    → All (λ x. covers daddr x ≡ false) xs
    → covers daddr r ≡ true
    → (ip_rt_route devices daddr (xs ++ (r ∷ ys)) ≡ outcome devices daddr xs r ys)
      × (ip_rt_route devices daddr xs ≡ (at_null, xs))
unfolding ip_rt_route route_to
ip_rt_route_lem devices daddr xs r ys a e = (
  route_to_at devices daddr (covers daddr) xs r ys a e,
  ap (route_to devices daddr (covers daddr) xs) (first_match-none (covers daddr) xs a),
)

-- `ip_rt_local` does the same with the first such entry that is not through a gateway.
ip_rt_local_lem :
    (devices : ℕ → Device) (daddr : ℕ) (xs : List Rtable) (r : Rtable) (ys : List Rtable)
    → All (λ x. is_local daddr x ≡ false) xs
    → is_local daddr r ≡ true
    → (ip_rt_local devices daddr (xs ++ (r ∷ ys)) ≡ outcome devices daddr xs r ys)
      × (ip_rt_local devices daddr xs ≡ (at_null, xs))
unfolding ip_rt_local route_to
ip_rt_local_lem devices daddr xs r ys a e = (
  route_to_at devices daddr (is_local daddr) xs r ys a e,
  ap (route_to devices daddr (is_local daddr) xs) (first_match-none (is_local daddr) xs a),
)

clear_front :
    (daddr : ℕ) (new : Rtable) (rs : List Rtable)
    → All (λ r. includes new.rt_mask r ≡ true) rs
    → All (λ r. includes new.rt_mask r ≡ true → covers daddr r ≡ false) rs
    → All (λ r. covers daddr r ≡ false) rs
clear_front daddr new [] i n = tt
clear_front daddr new (r ∷ rs) i n = (n.0 i.0, clear_front daddr new rs i.1 n.1)

-- After a new entry was put into the table, `ip_rt_route` gives it for each address that it covers, that
-- is not its device's own, and that no entry before with a mask that includes the new one's covers.
pub put_entry-ip_rt_route :
    (devices : ℕ → Device) (daddr : ℕ) (new : Rtable) (old table : List Rtable)
    → put_entry new old ≡ some table
    → covers daddr new ≡ true
    → daddr ≢ (devices new.rt_dev).pa_addr
    → All
        (λ r. includes new.rt_mask r ≡ true → covers daddr r ≡ false)
        (drop_if (same_net new.rt_dst new.rt_mask) old)
    → (ip_rt_route devices daddr table).0 ≡ route (used new) (devices new.rt_dev).pa_addr
unfolding outcome
put_entry-ip_rt_route devices daddr new old table e c n h =
    let a = put_entry-Added new old table e in
    let P : Rtable → Type 0 = λ r. includes new.rt_mask r ≡ true → covers daddr r ≡ false in
    let g =
      clear_front daddr new a.front a.inside
        (All-left P a.front a.back (subst (All P) a.old_list h)) in
    let d : (daddr == (devices new.rt_dev).pa_addr) ≡ false = ground arith in
    ap (λ t. (ip_rt_route devices daddr t).0) a.new_list
    ∙ ap (λ x. x.0) (ip_rt_route_lem devices daddr a.front new a.back g c).0
    ∙ rw d refl
