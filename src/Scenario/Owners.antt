-- ===== src/Scenario/Owners.antt =====
-- The theorems on the owners of locked memory, applied to a program with two of them.
use vaultine.Prelude.{ℕ, ◌*◌, ◌<◌, ◌≡◌, ◌⊎◌, refl, false, some, All, length, [], ◌∷◌, arith}
use vaultine.Memory.{
  Memory, resize, alloc_cells, erase_and_free, empty_memory, construct, move_assign, move_construct,
  write, clear, Reaches, done, then_step, makes, writes, assigns, clears, elements,
}
use vaultine.Memory.Resize.{fitted, resize-elements}
use vaultine.Memory.Freed.{tidy, Reaches-freed, Reaches-room}

-- A byte of a key is written, and the buffer is moved to another owner.
abbrev made : Memory ℕ
made = construct 0 1 false 0 2 (empty_memory 0 1)

abbrev written : Memory ℕ
written = write 0 1 0 0 7 made

abbrev moved : Memory ℕ
moved = move_assign 0 1 3 0 written

written-Reaches : Reaches 0 1 (empty_memory 0 1) written
unfolding construct alloc_cells
written-Reaches =
    then_step _ _ _ (then_step _ _ _ (done _) (makes false 0 2 (empty_memory 0 1) refl))
      (writes 0 0 7 made (omega arith))

moved-Reaches : Reaches 0 1 (empty_memory 0 1) moved
moved-Reaches = then_step _ _ _ written-Reaches (assigns 3 0 written)

abbrev dropped : Memory ℕ
dropped = clear 0 1 3 moved

dropped-Reaches : Reaches 0 1 (empty_memory 0 1) dropped
dropped-Reaches = then_step _ _ _ moved-Reaches (clears 3 moved)

one_block : 0 < dropped.next
unfolding construct alloc_cells write move_assign clear move_construct
one_block = omega arith

its_pointer : (moved.owners 3).pointer ≡ some 0
unfolding construct alloc_cells write move_assign clear move_construct
its_pointer = refl

Reaches-freed_example :
    (((dropped.blocks 0).frees ≡ 1) × All (λ a. a ≡ 0) (dropped.blocks 0).cells)
    ⊎ (((dropped.blocks 0).frees ≡ 0)
        × ((x : ℕ) × ((dropped.owners x).pointer ≡ some 0)
            × ((y : ℕ) → (dropped.owners y).pointer ≡ some 0 → y ≡ x)))
Reaches-freed_example = Reaches-freed 0 1 (omega arith) dropped-Reaches 0 one_block

Reaches-room_example :
    ((moved.blocks 0).frees ≡ 0)
    × (length (moved.blocks 0).cells ≡ (moved.owners 3).size)
    × ((moved.blocks 0).bytes ≡ (moved.owners 3).size * 1)
Reaches-room_example = Reaches-room 0 1 (omega arith) moved-Reaches 3 0 its_pointer

resize-elements_example :
    (m' : Memory ℕ) × (resize 0 1 false 0 3 written ≡ some m')
    × (elements 0 1 0 m' ≡ fitted 0 1 3 (elements 0 1 0 written))
resize-elements_example =
    resize-elements 0 1 (omega arith) 0 3 (tidy 0 1 (omega arith) written-Reaches) (omega arith)

-- The key moved along, and it is gone from the memory that is freed.
elements-moved : elements 0 1 3 moved ≡ 7 ∷ 0 ∷ []
unfolding elements construct alloc_cells write move_assign clear move_construct
elements-moved = refl

cells-dropped : (dropped.blocks 0).cells ≡ 0 ∷ 0 ∷ []
unfolding construct alloc_cells write move_assign clear move_construct erase_and_free
cells-dropped = refl
