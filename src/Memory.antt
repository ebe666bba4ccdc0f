-- ===== src/Memory.antt =====
-- src/utils/secure_memory.h and src/utils/secure_memory.cc: locked memory with an owner that erases
-- and frees it. The functions are those of secure_vector; secure_buffer has the same ones but for
-- `resize`, and a constructor with a test of its own, construct_buffer.
pub mod Tidy
pub mod Blocks
pub mod Alloc
pub mod Owners
pub mod Steps
pub mod Freed
pub mod Resize
use vaultine.Prelude.{
  ℕ, zero, suc, ◌+◌, ◌-◌, ◌*◌, ◌/◌, ◌%◌, ◌^◌, ◌<◌, ◌≡◌, ◌≢◌, Bool, true, false, not, ◌&&◌, ◌||◌,
  ◌==◌, ltb, Option, none, some, List, [], ◌∷◌, ◌++◌, take, drop, length, replicate, if◌then◌else◌,
}

-- Memory of calloc: its length in bytes, the objects in it, and how often it was freed.
pub record Block (T : Type 0) : Type 0 where
  pub bytes : ℕ
  pub cells : List T
  pub frees : ℕ

-- data_ and size_.
pub record Owner : Type 0 where
  pub pointer : Option ℕ
  pub size : ℕ

-- Addresses from `next` on have not been handed out yet. Objects are known by their numbers, and an
-- object that is not alive owns nothing.
pub record Memory (T : Type 0) : Type 0 where
  pub blocks : ℕ → Block T
  pub next : ℕ
  pub owners : ℕ → Owner

abbrev pub nobody : Owner
nobody = record { pointer = none; size = 0 }

abbrev pub put : {A : Type 0} → ℕ → A → (ℕ → A) → ℕ → A
put i a f j = if i == j then a else f j

-- static_cast<size_t>(-1)
abbrev pub size_max : ℕ
size_max = 2 ^ 64 - 1

abbrev pub smaller : ℕ → ℕ → ℕ
smaller a b = if ltb b a then b else a

-- Objects of a type T, of `size_of` bytes, of which T{} is `blank`: zeros, in every byte.
module _ {T : Type 0} (blank : T) (size_of : ℕ) where
  abbrev pub set_owner : ℕ → Owner → Memory T → Memory T
  set_owner x o m = record m { owners = put x o m.owners }

  abbrev pub set_block : ℕ → Block T → Memory T → Memory T
  set_block p b m = record m { blocks = put p b m.blocks }

  -- secure_alloc(count * sizeof(T)), where calloc or mlock may refuse. The product wraps around.
  unfoldable pub alloc_cells : Bool → ℕ → Memory T → Option ℕ × Memory T
  alloc_cells refused count m = if refused || (count * size_of) % 2 ^ 64 == 0 then (none, m) else (
    some m.next,
    record m {
      blocks =
          put m.next
            (record {
              bytes = (count * size_of) % 2 ^ 64;
              cells = replicate count blank;
              frees = 0;
            })
            m.blocks;
      next = suc m.next;
    },
  )

  -- secure_erase(data_, size_ * sizeof(T))
  abbrev pub erased_cells : ℕ → List T → List T
  erased_cells n cells = replicate n blank ++ drop n cells

  -- What secure_erase and secure_free leave of a block. Nothing is done for a length of 0.
  unfoldable pub erase_and_free : ℕ → Block T → Block T
  erase_and_free n b =
      if n * size_of == 0
      then b
      else record b { cells = erased_cells n b.cells; frees = suc b.frees }

  abbrev pub released : ℕ → Option ℕ → ℕ → Memory T → Memory T
  released x none n m = m
  released x (some p) n m = set_owner x nobody (set_block p (erase_and_free n (m.blocks p)) m)

  -- clear(), and the destructor.
  unfoldable pub clear : ℕ → Memory T → Memory T
  clear x m = released x (m.owners x).pointer (m.owners x).size m

  abbrev pub owner_after : ℕ → Option ℕ → Owner
  owner_after count none = nobody
  owner_after count (some p) = record { pointer = some p; size = count }

  abbrev pub constructed : Bool → ℕ → ℕ → Memory T → Memory T
  constructed refused x count m =
      let r = alloc_cells refused count m in set_owner x (owner_after count r.0) r.1

  -- explicit secure_vector(size_type count)
  unfoldable pub construct : Bool → ℕ → ℕ → Memory T → Memory T
  construct refused x count m =
      if ltb (size_max / size_of) count then set_owner x nobody m else constructed refused x count m

  -- explicit secure_buffer(size_t count)
  unfoldable pub construct_buffer : Bool → ℕ → ℕ → Memory T → Memory T
  construct_buffer refused x count m =
      if not (count == 0) && ltb (size_max / size_of) count
      then set_owner x nobody m
      else constructed refused x count m

  -- secure_vector(secure_vector&& other)
  unfoldable pub move_construct : ℕ → ℕ → Memory T → Memory T
  move_construct x other m = set_owner other nobody (set_owner x (m.owners other) m)

  -- operator=(secure_vector&& other), with its test `this != &other`.
  unfoldable pub move_assign : ℕ → ℕ → Memory T → Memory T
  move_assign x other m = if x == other then m else move_construct x other (clear x m)

  -- The objects of an owner.
  unfoldable pub elements : ℕ → Memory T → List T
  elements x m = elim (m.owners x).pointer [ none ↦ [] | some p ↦ (m.blocks p).cells ]

  abbrev pub copied : ℕ → ℕ → List T → List T
  copied size new_size cells =
      take (smaller size new_size) cells ++ replicate (new_size - smaller size new_size) blank

  -- After the allocation. `none` is a write through the null pointer: there is no test of new_data.
  unfoldable pub resized : ℕ → ℕ → Option ℕ → Memory T → Option (Memory T)
  resized x new_size none m = if new_size == 0 then some (set_owner x nobody (clear x m)) else none
  resized x new_size (some q) m = some (
      set_owner x (record { pointer = some q; size = new_size })
        (clear x (
          set_block q
            (record (m.blocks q) { cells = copied (m.owners x).size new_size (elements x m) }) m)))

  unfoldable pub resize : Bool → ℕ → ℕ → Memory T → Option (Memory T)
  resize refused x new_size m =
      if new_size == (m.owners x).size || ltb (size_max / size_of) new_size
      then some m
      else let r = alloc_cells refused new_size m in resized x new_size r.0 r.1

  abbrev pub replace_at : ℕ → T → List T → List T
  replace_at i a [] = []
  replace_at zero a (_ ∷ cells) = a ∷ cells
  replace_at (suc i) a (c ∷ cells) = c ∷ replace_at i a cells

  -- operator[](i) = a, inside the array.
  unfoldable pub write : ℕ → ℕ → T → Memory T → Memory T
  write x i a m = elim (m.owners x).pointer [
    | none ↦ m
    | some p ↦ set_block p (record (m.blocks p) { cells = replace_at i a (m.blocks p).cells }) m
  ]

  -- What a program does with objects of the class. A constructor gets a new object.
  pub data Step : Memory T → Memory T → Type 0 where
    makes :
        (refused : Bool) (x count : ℕ) (m : Memory T)
        → m.owners x ≡ nobody
        → Step m (construct refused x count m)
    makes_buffer :
        (refused : Bool) (x count : ℕ) (m : Memory T)
        → m.owners x ≡ nobody
        → Step m (construct_buffer refused x count m)
    moves :
        (x other : ℕ) (m : Memory T)
        → m.owners x ≡ nobody
        → x ≢ other
        → Step m (move_construct x other m)
    assigns : (x other : ℕ) (m : Memory T) → Step m (move_assign x other m)
    resizes :
        (refused : Bool) (x new_size : ℕ) (m m' : Memory T)
        → resize refused x new_size m ≡ some m'
        → Step m m'
    clears : (x : ℕ) (m : Memory T) → Step m (clear x m)
    writes : (x i : ℕ) (a : T) (m : Memory T) → i < (m.owners x).size → Step m (write x i a m)

  pub data Reaches : Memory T → Memory T → Type 0 where
    done : (m : Memory T) → Reaches m m
    then_step : (m m' m'' : Memory T) → Reaches m m' → Step m' m'' → Reaches m m''

  -- Before any object is made.
  abbrev pub empty_memory : Memory T
  empty_memory = record {
    blocks = λ _. record { bytes = 0; cells = []; frees = 0 };
    next = 0;
    owners = λ _. nobody;
  }
