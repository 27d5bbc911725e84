-- ===== src/Kernel/Console/Erase.antt =====
-- A character printed by `out_char`, and taken back by a backspace.
use prettyos.Common.{
  ℕ, ◌-◌, ◌+◌, ◌*◌, ◌<◌, ◌≡◌, ◌≢◌, refl, Bool, true, false, not, subst, ap, ◌∙◌, some, arith, ltb,
  ◌==◌, ◌&&◌, Bool-cases, inl, inr,
}
use prettyos.Kernel.Console.{
  Screen, add32, sub32, poke, backspace, put_char, out_case, out_char, default_char_color,
}
use prettyos.Kernel.Console.Output.{Valid, Shown, out_char-Shown}

abbrev pub is_printed : ℕ → Bool
is_printed ch = not (ch == 0x08) && not (ch == 0x09) && not (ch == 0x0a)

-- The cell of the cursor, written.
abbrev pub cell : Screen → ℕ → ℕ → ℕ
cell s ch = poke (poke s.vmem (2 * s.con.cursor) ch) (2 * s.con.cursor + 1) default_char_color

abbrev printed : Screen → ℕ → Screen
printed s ch = record s {
  con = record (s.con) { cursor = add32 s.con.cursor 1 };
  vmem = cell s ch;
  out_char_number = s.out_char_number + 1;
}

abbrev wiped : Screen → Screen
wiped t = record t {
  con = record (t.con) { cursor = sub32 t.con.cursor 1 };
  vmem = poke (poke t.vmem (2 * t.con.cursor - 2) 0x20) (2 * t.con.cursor - 1) default_char_color;
  out_char_number = t.out_char_number - 1;
}

out_case_printed :
    (s : Screen) (ch : ℕ)
    → is_printed ch ≡ true
    → Valid s
    → s.con.cursor + 1 < s.con.original_addr + s.con.v_mem_limit
    → out_case s ch ≡ printed s ch
unfolding out_case put_char
out_case_printed s ch p (v, on) h =
    let e4 = v.room in
    let a : (ch == 0x0a) ≡ false = ground arith in
    let b : (ch == 0x08) ≡ false = ground arith in
    let c : (ch == 0x09) ≡ false = ground arith in
    let d : ltb s.con.cursor (sub32 (add32 s.con.original_addr s.con.v_mem_limit) 1) ≡ true =
      ground arith in
    rw (a, b, c, d) refl

-- What a printed character and then a backspace leave: the cursor where it was, and on the cell there
-- a blank in the default colour.
pub record Erased (s u : Screen) : Type 0 where
  pub cursor : u.con.cursor ≡ s.con.cursor
  pub blank : (i : ℕ) → u.vmem i ≡ cell s 0x20 i
  pub valid : Valid u

poke_blank :
    (m : ℕ → ℕ) (n : ℕ → ℕ) (k ch : ℕ)
    → ((i : ℕ) → m i ≡ poke (poke n (2 * k) ch) (2 * k + 1) default_char_color i)
    → (i : ℕ)
    → poke (poke m (2 * (k + 1) - 2) 0x20) (2 * (k + 1) - 1) default_char_color i
      ≡ poke (poke n (2 * k) 0x20) (2 * k + 1) default_char_color i
unfolding poke
poke_blank m n k ch h i =
    let e1 : 2 * (k + 1) - 2 ≡ 2 * k = omega arith in
    let e2 : 2 * (k + 1) - 1 ≡ 2 * k + 1 = omega arith in
    let hi = h i in
    rw (e1, e2)
      (elim (Bool-cases (2 * k + 1 == i)) [
        | inl e ↦ rw e refl
        | inr e ↦ elim (Bool-cases (2 * k == i)) [
          | inl f ↦ rw (e, f) refl
          | inr f ↦ rw (e, f) (rw (e, f) at hi)
        ]
      ])

backspace_case :
    (t : Screen)
    → t.con.original_addr < t.con.cursor
    → 0 < t.out_char_number
    → out_case t 0x08 ≡ wiped t
unfolding out_case backspace
backspace_case t h k =
    let a : ltb t.con.original_addr t.con.cursor && ltb 0 t.out_char_number ≡ true = ground arith in
    rw a refl

-- On a valid console whose cursor is not on the last cell, a printed character moves the cursor by
-- one and writes its cell, and the backspace after it puts the cursor back and blanks that cell.
pub out_char_erase :
    (s : Screen) (ch : ℕ)
    → is_printed ch ≡ true
    → Valid s
    → s.con.cursor + 1 < s.con.original_addr + s.con.v_mem_limit
    → (t : Screen) × (out_char s ch ≡ some t)
      × (t.con.cursor ≡ s.con.cursor + 1)
      × ((i : ℕ) → t.vmem i ≡ cell s ch i)
      × ((u : Screen) × (out_char t 0x08 ≡ some u) × Erased s u)
out_char_erase s ch p w h =
    let n : ch ≢ 9 = λ e. ground arith in
    let (t, e, f0) = out_char-Shown s ch n w in
    let f : Shown (printed s ch) t = subst (λ z. Shown z t) (out_case_printed s ch p w h) f0 in
    let (v, on) = w in
    let room = v.room in
    let c1 = f.cursor in
    let c2 : t.con.cursor ≡ s.con.cursor + 1 = omega arith in
    let o = f.original in
    let k = f.counted in
    let (u, d, g0) = out_char-Shown t 0x08 (λ z. ground arith) f.valid in
    let g : Shown (wiped t) u =
      subst (λ z. Shown z u) (backspace_case t (omega arith) (omega arith)) g0 in
    let q = g.cursor in
    (
      t,
      e,
      c2,
      f.memory,
      (
        u,
        d,
        record {
          cursor = omega arith;
          blank = λ i.
              g.memory i
              ∙ ap (λ x. poke (poke t.vmem (2 * x - 2) 0x20) (2 * x - 1) default_char_color i) c2
              ∙ poke_blank t.vmem s.vmem s.con.cursor ch f.memory i;
          valid = g.valid;
        },
      ),
    )
