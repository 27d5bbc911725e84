-- ===== src/Fs/Buffer/Tests.antt =====
-- The buffer cache at a concrete ring, and the theorems at concrete inputs.
use prettyos.Common.{ℕ, ◌≡◌, refl, some, [], ◌∷◌, arith, ◌==◌, if◌then◌else◌}
use prettyos.Fs.Buffer.{Buffers, choose, choose_loop, is_taken, is_better, pick_one, stops, badness}
use prettyos.Fs.Buffer.Choice.{Best, choose-Best}

-- Buffers at 1, 2 and 3: the first in use, the second dirty; the second holds block 5 of device 1.
abbrev buffers : Buffers
buffers = record {
  heads = λ k. record {
    b_dev = if k == 2 then 1 else 0;
    b_blocknr = if k == 2 then 5 else 0;
    b_count = if k == 1 then 1 else 0;
    b_dirt = if k == 2 then 1 else 0;
    b_uptodate = 0;
    b_lock = 0;
    b_next = 0;
    b_prev = 0;
    b_next_free = if k == 1 then 2 else if k == 2 then 3 else 1;
    b_prev_free = if k == 1 then 3 else if k == 2 then 1 else 2;
  };
  hash_buffer = λ i. if i == 4 then 2 else 0;
  buffer_free_list = 1;
}

choose-Best_example : (r : ℕ) × (choose 3 buffers ≡ some r) × Best buffers (1 ∷ 2 ∷ 3 ∷ []) r
choose-Best_example =
    choose-Best 3 buffers (2 ∷ 3 ∷ []) (refl, omega arith, (refl, omega arith, refl))
      (omega arith, (omega arith, (omega arith, tt))) (omega arith)

chosen : choose 3 buffers ≡ some 3
unfolding choose choose_loop is_taken is_better pick_one stops badness
chosen = refl
