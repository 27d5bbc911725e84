-- ===== src/Net/Ip/Order.antt =====
-- The order of the fragments of net/inet/ip.c, and the bytes that they cover.
use prettyos.Common.{
  ℕ, ◌≤◌, ◌<◌, ◌≡◌, refl, ap, ◌∙◌, Bool, true, false, Option, none, some, ◌&&◌, ◌||◌, List, [], ◌∷◌,
  All, ltb, leb, arith, Bool-cases, inl, inr, ltb→lt, ltb_false→le,
}
use prettyos.Net.Ip.{Ipfrag, stopped_at, new_part, put_after}

abbrev pub has_byte : ℕ → Ipfrag → Bool
has_byte x f = leb f.offset x && ltb x f.end

-- A fragment of the list has the byte.
abbrev pub is_covered : ℕ → List Ipfrag → Bool
is_covered x [] = false
is_covered x (f ∷ fs) = has_byte x f || is_covered x fs

-- From a byte on, in order and without overlaps.
abbrev pub IsOrdered : ℕ → List Ipfrag → Type 0
IsOrdered lo [] = Unit
IsOrdered lo (f ∷ fs) = (lo ≤ f.offset) × (f.offset ≤ f.end) × IsOrdered f.end fs

-- The end of the last one.
abbrev pub last_end : ℕ → List Ipfrag → ℕ
last_end lo [] = lo
last_end lo (f ∷ fs) = last_end f.end fs

-- What begins before the end of the new fragment does not reach past it.
abbrev pub Fits : ℕ → List Ipfrag → Type 0
Fits end fs = All (λ (f : Ipfrag). f.offset < end → f.end ≤ end) fs

IsOrdered-lower :
    (lo lower : ℕ) (fs : List Ipfrag) → lower ≤ lo → IsOrdered lo fs → IsOrdered lower fs
IsOrdered-lower lo lower [] h o = tt
IsOrdered-lower lo lower (f ∷ fs) h o = (omega arith, o.1, o.2)

stopped_at-IsOrdered :
    (lo end : ℕ) (fs : List Ipfrag) → IsOrdered lo fs → IsOrdered end (stopped_at end fs)
unfolding stopped_at
stopped_at-IsOrdered lo end [] o = tt
stopped_at-IsOrdered lo end (f ∷ fs) o = elim (Bool-cases (leb end f.offset)) [
  | inl c ↦ rw c (ground arith, o.1, o.2)
  | inr c ↦ rw c (stopped_at-IsOrdered f.end end fs o.2)
]

-- The end of the entry before, or a lower bound.
abbrev end_of : Option Ipfrag → ℕ → ℕ
end_of none lo = lo
end_of (some f) lo = f.end

new_part-offset :
    (f : Option Ipfrag) (new : Ipfrag) (lo : ℕ)
    → lo ≤ new.offset
    → end_of f lo ≤ new.end
    → new.offset < new.end
    → (end_of f lo ≤ (new_part f new).offset)
      × ((new_part f new).offset ≤ (new_part f new).end)
      × ((new_part f new).end ≡ new.end)
unfolding new_part
new_part-offset none new lo a b c = (a, omega arith, refl)
new_part-offset (some f) new lo a b c = elim (Bool-cases (ltb new.offset f.end)) [
  | inl d ↦ rw d (omega arith, b, refl)
  | inr d ↦ rw d (ground arith, omega arith, refl)
]

put_after-IsOrdered :
    (prev : Option Ipfrag) (new : Ipfrag) (fs : List Ipfrag) (lo : ℕ)
    → lo ≤ new.offset
    → end_of prev lo ≤ new.end
    → new.offset < new.end
    → Fits new.end fs
    → IsOrdered (end_of prev lo) fs
    → IsOrdered (end_of prev lo) (put_after prev new fs)
unfolding put_after
put_after-IsOrdered prev new [] lo a b c h o =
    let p = new_part-offset prev new lo a b c in (p.0, p.1, tt)
put_after-IsOrdered prev new (f ∷ fs) lo a b c h o = elim (Bool-cases (ltb new.offset f.offset)) [
  | inl d ↦
      let p = new_part-offset prev new lo a b c in
      rw d (
        p.0,
        p.1,
        IsOrdered-lower new.end (new_part prev new).end (stopped_at new.end (f ∷ fs))
            (omega (arith, p.2)) (stopped_at-IsOrdered (end_of prev lo) new.end (f ∷ fs) o),
      )
  | inr d ↦
      let e : f.offset ≤ new.offset = ltb_false→le new.offset f.offset d in
      rw d (o.0, o.1, put_after-IsOrdered (some f) new fs lo a (h.0 (omega arith)) c h.1 o.2)
]

prev_has : ℕ → Option Ipfrag → Bool
prev_has x none = false
prev_has x (some f) = has_byte x f

abbrev Precedes : Option Ipfrag → Ipfrag → Type 0
Precedes none new = Unit
Precedes (some f) new = f.offset ≤ new.offset

new_part_bytes :
    (x : ℕ) (prev : Option Ipfrag) (new : Ipfrag)
    → Precedes prev new
    → new.offset < new.end
    → (prev_has x prev || has_byte x (new_part prev new)) ≡ (prev_has x prev || has_byte x new)
unfolding new_part prev_has
new_part_bytes x none new p c = refl
new_part_bytes x (some f) new p c = elim (Bool-cases (ltb new.offset f.end)) [
  | inl d ↦ rw d (ground arith)
  | inr d ↦ rw d refl
]

or_false : (a b : Bool) → (a ≡ true → b ≡ true) → (b || a) ≡ b
or_false true b h = rw (h refl) refl
or_false false true h = refl
or_false false false h = refl

or_drop : (a b c : Bool) → (b ≡ true → a ≡ true) → (a || c) ≡ (a || (b || c))
or_drop true b c h = refl
or_drop false true c h = absurd (ground (arith, h refl))
or_drop false false c h = refl

or_front :
    (p a b c d : Bool)
    → (p || a) ≡ (p || b)
    → (b || c) ≡ (b || d)
    → (p || (a || c)) ≡ (p || (b || d))
or_front true a b c d h k = refl
or_front false a b c d h k = ap (λ e. e || c) h ∙ k

or_swap : (a b c : Bool) → (a || (b || c)) ≡ (b || (a || c))
or_swap true true c = refl
or_swap true false c = refl
or_swap false b c = refl

stopped_at_bytes :
    (x first end lo : ℕ) (fs : List Ipfrag)
    → first ≤ lo
    → IsOrdered lo fs
    → Fits end fs
    → ((leb first x && ltb x end) || is_covered x (stopped_at end fs))
      ≡ ((leb first x && ltb x end) || is_covered x fs)
unfolding stopped_at
stopped_at_bytes x first end lo [] a o h = refl
stopped_at_bytes x first end lo (f ∷ fs) a o h = elim (Bool-cases (leb end f.offset)) [
  | inl d ↦ rw d refl
  | inr d ↦
      let e : f.end ≤ end = h.0 (ground arith) in
      let inside : has_byte x f ≡ true → (leb first x && ltb x end) ≡ true =
        λ b. ground (arith, o.0) in
      rw d (
        stopped_at_bytes x first end f.end fs (omega (arith, o.0, o.1)) o.2 h.1
        ∙ or_drop (leb first x && ltb x end) (has_byte x f) (is_covered x fs) inside)
]

or_shift : (p a b c : Bool) → (p || b) ≡ (p || (a || c)) → (p || b) ≡ (a || (p || c))
or_shift p a b c h = h ∙ or_swap p a c

or_under : (p a b : Bool) → a ≡ b → (p || a) ≡ (p || b)
or_under p a b h = ap (λ c. p || c) h

put_after_bytes :
    (x : ℕ) (prev : Option Ipfrag) (new : Ipfrag) (fs : List Ipfrag) (lo : ℕ)
    → Precedes prev new
    → new.offset < new.end
    → Fits new.end fs
    → IsOrdered lo fs
    → (prev_has x prev || is_covered x (put_after prev new fs))
      ≡ (prev_has x prev || (has_byte x new || is_covered x fs))
unfolding put_after prev_has
put_after_bytes x prev new [] lo p c h o =
    or_front (prev_has x prev) (has_byte x (new_part prev new)) (has_byte x new) false false
      (new_part_bytes x prev new p c) refl
put_after_bytes x prev new (f ∷ fs) lo p c h o = elim (Bool-cases (ltb new.offset f.offset)) [
  | inl d ↦ rw d (
      let rest = stopped_at new.end (f ∷ fs) in
      let after = is_covered x rest in
      let all = is_covered x (f ∷ fs) in
      let e : new.offset < f.offset = ltb→lt new.offset f.offset d in
      let s : (has_byte x new || after) ≡ (has_byte x new || all) =
        stopped_at_bytes x new.offset new.end f.offset (f ∷ fs) (omega arith)
          (omega arith, o.1, o.2) h in
      or_front (prev_has x prev) (has_byte x (new_part prev new)) (has_byte x new) after all
        (new_part_bytes x prev new p c) s)
  | inr d ↦ rw d (
      or_under (prev_has x prev) (is_covered x (f ∷ put_after (some f) new fs))
        (has_byte x new || is_covered x (f ∷ fs))
        (or_shift (has_byte x f) (has_byte x new) (is_covered x (put_after (some f) new fs))
          (is_covered x fs)
          (put_after_bytes x (some f) new fs f.end (ltb_false→le new.offset f.offset d) c h.1 o.2)))
]

-- From the start of the list, for a new fragment that is not empty, where no fragment that begins
-- before its end reaches past it: the list of `ip_defrag` stays in order and without overlaps, and its
-- bytes are those of the list and of the new fragment.
pub put_after-is_covered :
    (new : Ipfrag) (fs : List Ipfrag)
    → new.offset < new.end
    → Fits new.end fs
    → IsOrdered 0 fs
    → IsOrdered 0 (put_after none new fs)
      × ((x : ℕ) → is_covered x (put_after none new fs) ≡ (has_byte x new || is_covered x fs))
unfolding prev_has
put_after-is_covered new fs c h o = (
  put_after-IsOrdered none new fs 0 (omega arith) (omega arith) c h o,
  (λ x. put_after_bytes x none new fs 0 tt c h o),
)
