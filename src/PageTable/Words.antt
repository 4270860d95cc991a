-- ===== src/PageTable/Words.antt =====
-- mm/memory.c: 64-bit words in memory.
use kernel_travel.Base.{
  ℕ, ◌+◌, ◌-◌, ◌*◌, ◌^◌, ◌≤◌, ◌<◌, ◌≡◌, refl, sym, ap, ◌∙◌, ◌⊎◌, inl, inr, arith,
}
use kernel_travel.Pages.{Memory}
use kernel_travel.PageTable.{load, store, byte_of}

-- The words at the two addresses have no byte in common.
abbrev pub Far : ℕ → ℕ → Type 0
Far a b = (a + 8 ≤ b) ⊎ (b + 8 ≤ a)

pub Far_sym : {a b : ℕ} → Far a b → Far b a
Far_sym (inl h) = inr h
Far_sym (inr h) = inl h

bytes_sum :
    (v : ℕ)
    → v < 2 ^ 64
    → byte_of v 0
        + (2 ^ 8 * byte_of v 1
            + (2 ^ 16 * byte_of v 2
                + (2 ^ 24 * byte_of v 3
                    + (2 ^ 32 * byte_of v 4
                        + (2 ^ 40 * byte_of v 5 + (2 ^ 48 * byte_of v 6 + 2 ^ 56 * byte_of v 7))))))
      ≡ v
bytes_sum v h = omega (arith, h)

stored_byte : (m : Memory) (a v i : ℕ) → i < 8 → (store m a v).bytes (a + i) ≡ byte_of v i
stored_byte m a v i h =
    let back : a + i - a ≡ i = omega arith in ground (arith, ap (byte_of v) back, h)

-- A word whose bytes are given.
load-bytes :
    (m : Memory) (f : ℕ → ℕ) (a : ℕ)
    → ((i : ℕ) → i < 8 → m.bytes (a + i) ≡ f i)
    → load m a
      ≡ f 0
        + (2 ^ 8 * f 1
            + (2 ^ 16 * f 2
                + (2 ^ 24 * f 3 + (2 ^ 32 * f 4 + (2 ^ 40 * f 5 + (2 ^ 48 * f 6 + 2 ^ 56 * f 7))))))
load-bytes m f a same =
    let first : a + 0 ≡ a = omega arith in
    omega (
      arith,
      ap m.bytes (sym first) ∙ same 0 (omega arith),
      same 1 (omega arith),
      same 2 (omega arith),
      same 3 (omega arith),
      same 4 (omega arith),
      same 5 (omega arith),
      same 6 (omega arith),
      same 7 (omega arith),
    )

pub load-store : (m : Memory) (a v : ℕ) → v < 2 ^ 64 → load (store m a v) a ≡ v
load-store m a v h = load-bytes (store m a v) (byte_of v) a (stored_byte m a v) ∙ bytes_sum v h

pub load-same :
    (m m' : Memory) (a : ℕ)
    → ((i : ℕ) → i < 8 → m'.bytes (a + i) ≡ m.bytes (a + i))
    → load m' a ≡ load m a
load-same m m' a same =
    load-bytes m' (λ i. m.bytes (a + i)) a same
    ∙ sym (load-bytes m (λ i. m.bytes (a + i)) a (λ i h. refl))

pub load-zero : (m : Memory) (a : ℕ) → ((i : ℕ) → i < 8 → m.bytes (a + i) ≡ 0) → load m a ≡ 0
load-zero m a same = load-bytes m (λ i. 0) a same

pub load-store_far : (m : Memory) (a b v : ℕ) → Far b a → load (store m a v) b ≡ load m b
load-store_far m a b v far = load-same m (store m a v) b (λ i h. elim far [
  | inl below ↦ ground (arith, below, h)
  | inr above ↦ ground (arith, above, h)
])
