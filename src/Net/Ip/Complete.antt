-- ===== src/Net/Ip/Complete.antt =====
-- When `ip_frq_done` of net/inet/ip.c finds the fragments complete.
use prettyos.Common.{
  ℕ, ◌≤◌, ◌<◌, ◌≡◌, ◌≢◌, ◌↔◌, refl, sym, ap, ◌∙◌, Bool, true, false, ◌||◌, List, [], ◌∷◌, ◌==◌, ltb,
  arith, Bool-cases, inl, inr, ==_iff, ltb→lt,
}
use prettyos.Net.Ip.{Ipfrag, Ipfq, done_loop, ip_frq_done}
use prettyos.Net.Ip.Order.{has_byte, is_covered, IsOrdered, last_end}

ordered_above : (x lo : ℕ) (fs : List Ipfrag) → x < lo → IsOrdered lo fs → is_covered x fs ≡ false
ordered_above x lo [] h o = refl
ordered_above x lo (f ∷ fs) h o =
    let below : has_byte x f ≡ false = ground (arith, o.0) in
    rw below (ordered_above x f.end fs (omega (arith, o.0, o.1)) o.2)

lo-last_end : (lo : ℕ) (fs : List Ipfrag) → IsOrdered lo fs → lo ≤ last_end lo fs
lo-last_end lo [] o = omega arith
lo-last_end lo (f ∷ fs) o = omega (arith, lo-last_end f.end fs o.2, o.0, o.1)

-- Every byte of a range.
abbrev pub AllCovered : ℕ → ℕ → List Ipfrag → Type 0
AllCovered lo hi fs = (x : ℕ) → lo ≤ x → x < hi → is_covered x fs ≡ true

done_loop_covers :
    (lo : ℕ) (fs : List Ipfrag)
    → IsOrdered lo fs
    → done_loop lo fs ≡ true
    → AllCovered lo (last_end lo fs) fs
unfolding done_loop
done_loop_covers lo [] o d x a b = absurd (omega arith)
done_loop_covers lo (f ∷ fs) o d x a b = elim (Bool-cases (ltb lo f.offset)) [
  | inl c ↦ absurd (ground (arith, (rw c at (d))))
  | inr c ↦ elim (Bool-cases (ltb x f.end)) [
    | inl k ↦ let here : has_byte x f ≡ true = ground arith in rw here refl
    | inr k ↦
        let past : has_byte x f ≡ false = ground arith in
        rw past (done_loop_covers f.end fs o.2 (rw c at (d)) x (ground arith) b)
  ]
]

covers_done_loop :
    (lo : ℕ) (fs : List Ipfrag)
    → IsOrdered lo fs
    → AllCovered lo (last_end lo fs) fs
    → done_loop lo fs ≡ true
unfolding done_loop
covers_done_loop lo [] o h = refl
covers_done_loop lo (f ∷ fs) o h = elim (Bool-cases (ltb lo f.offset)) [
  | inl c ↦
      let e : lo < f.offset = ltb→lt lo f.offset c in
      let gap : has_byte lo f ≡ false = ground arith in
      let later : is_covered lo fs ≡ false = ordered_above lo f.end fs (omega (arith, o.1)) o.2 in
      let last : lo < last_end f.end fs = omega (arith, lo-last_end f.end fs o.2, o.1) in
      let none_here : is_covered lo (f ∷ fs) ≡ false = rw (gap, later) refl in
      absurd (ground (arith, sym none_here ∙ h lo (omega arith) last))
  | inr c ↦ rw c (
      covers_done_loop f.end fs o.2 (λ x a b.
        let past : has_byte x f ≡ false = ground arith in
        let found : is_covered x (f ∷ fs) ≡ true = h x (omega (arith, o.0, o.1)) b in
        ap (λ (e : Bool). e || is_covered x fs) (sym past) ∙ found))
]

-- For fragments in order and without overlaps, `ip_frq_done` answers 1 exactly where a length is known
-- and each byte before the end of the last fragment is in one of them.
pub ip_frq_done_iff :
    (q : Ipfq)
    → IsOrdered 0 q.fragments
    → (ip_frq_done q ≡ true) ↔ ((q.len ≢ 0) × AllCovered 0 (last_end 0 q.fragments) q.fragments)
unfolding ip_frq_done
ip_frq_done_iff q o = elim (Bool-cases (q.len == 0)) [
  | inl c ↦ rw c ((λ h. absurd (ground arith)), (λ h. absurd (h.0 ((==_iff q.len 0).0 c))))
  | inr c ↦ rw c (
    (λ h. ((λ z. absurd (ground arith)), done_loop_covers 0 q.fragments o h)),
    (λ h. covers_done_loop 0 q.fragments o h.1),
  )
]
