-- ===== src/AgentTools/Output.antt =====
-- `limitedBuffer` of cmd/llama-stack-agent-tools/main.go: the output of a command, cut off.
use llama_stack.Base.{
  ℕ, zero, suc, subst, ◌+◌, ◌-◌, ◌≤◌, ◌<◌, ◌≡◌, refl, sym, ◌∙◌, ap, Bool, true, false, List, [],
  ◌∷◌, ◌++◌, arith, ltb, ◌==◌, length, take, if◌then◌else◌, length-append, take_all, min,
  Bool-cases, inl, inr, ◌⊎◌,
}

pub record LimitedBuffer : Type 0 where
  pub buffer : List ℕ
  pub remaining : ℕ
  pub truncated : Bool

-- `Write`; the count that it returns is the length of the data.
unfoldable pub write : List ℕ → LimitedBuffer → LimitedBuffer
write bytes b =
    if b.remaining == 0
    then record b { truncated = true }
    else if ltb b.remaining (length bytes)
    then record { buffer = b.buffer ++ take b.remaining bytes; remaining = 0; truncated = true }
    else record b { buffer = b.buffer ++ bytes; remaining = b.remaining - length bytes }

-- The writes of a process, one after the other, to a buffer with a limit.
unfoldable pub write_all : List (List ℕ) → LimitedBuffer → LimitedBuffer
write_all [] b = b
write_all (bytes ∷ chunks) b = write_all chunks (write bytes b)

abbrev pub fresh : ℕ → LimitedBuffer
fresh limit = record { buffer = []; remaining = limit; truncated = false }

abbrev pub concat : List (List ℕ) → List ℕ
concat [] = []
concat (bytes ∷ chunks) = bytes ++ concat chunks

-- A buffer against what was written to it.
pub record Holds (limit : ℕ) (sent : List ℕ) (b : LimitedBuffer) : Type 0 where
  pub cut : b.buffer ≡ take limit sent
  pub room : b.remaining + min limit (length sent) ≡ limit
  pub told : (length sent ≤ limit) ⊎ (b.truncated ≡ true)
  pub silent : (limit ≤ length sent) ⊎ (b.truncated ≡ false)

append_assoc : (xs ys zs : List ℕ) → (xs ++ ys) ++ zs ≡ xs ++ (ys ++ zs)
append_assoc [] ys zs = refl
append_assoc (x ∷ xs) ys zs = ap (λ l. x ∷ l) (append_assoc xs ys zs)

append_nil : (xs : List ℕ) → xs ++ [] ≡ xs
append_nil [] = refl
append_nil (x ∷ xs) = ap (λ l. x ∷ l) (append_nil xs)

take_nil : (n : ℕ) → take {A = ℕ} n [] ≡ []
take_nil zero = refl
take_nil (suc n) = refl

take_more :
    (n k : ℕ) (xs ys : List ℕ)
    → k + min n (length xs) ≡ n
    → take n (xs ++ ys) ≡ take n xs ++ take k ys
take_more zero k [] ys h = (let none : k ≡ 0 = omega arith in rw none refl)
take_more zero k (x ∷ xs) ys h = (let none : k ≡ 0 = omega arith in rw none refl)
take_more (suc n) k [] ys h = (let all : k ≡ suc n = omega arith in rw all refl)
take_more (suc n) k (x ∷ xs) ys h = ap (λ l. x ∷ l) (take_more n k xs ys (omega arith))

module _ (limit : ℕ) (sent bytes : List ℕ) (b : LimitedBuffer) (h : Holds limit sent b) where
  abbrev longer : ℕ
  longer = length sent + length bytes

  more : take limit (sent ++ bytes) ≡ b.buffer ++ take b.remaining bytes
  more =
      take_more limit b.remaining sent bytes h.room
      ∙ ap (λ l. l ++ take b.remaining bytes) (sym h.cut)

  write-full : b.remaining ≡ 0 → Holds limit (sent ++ bytes) (record b { truncated = true })
  write-full full = record {
    cut = sym (append_nil b.buffer) ∙ sym (more ∙ ap (λ k. b.buffer ++ take k bytes) full);
    room = omega (arith, h.room, length-append sent bytes);
    told = inr refl;
    silent = inl (omega (arith, h.room, length-append sent bytes));
  }

  write-over :
      b.remaining < length bytes
      → ¬ (b.remaining ≡ 0)
      → Holds limit
          (sent ++ bytes)
          (record { buffer = b.buffer ++ take b.remaining bytes; remaining = 0; truncated = true })
  write-over over some = record {
    cut = sym more;
    room = omega (arith, h.room, length-append sent bytes);
    told = inr refl;
    silent = inl (omega (arith, h.room, length-append sent bytes));
  }

  write-whole :
      length bytes ≤ b.remaining
      → ¬ (b.remaining ≡ 0)
      → Holds limit
          (sent ++ bytes)
          (record b { buffer = b.buffer ++ bytes; remaining = b.remaining - length bytes })
  write-whole fits some = record {
    cut = ap (λ l. b.buffer ++ l) (sym (take_all b.remaining bytes fits)) ∙ sym more;
    room = omega (arith, h.room, length-append sent bytes);
    told = inl (omega (arith, h.room, length-append sent bytes));
    silent = elim h.silent [ inl full ↦ absurd (omega (arith, h.room)) | inr quiet ↦ inr quiet ];
  }

  write-Holds : Holds limit (sent ++ bytes) (write bytes b)
  unfolding write
  write-Holds = elim (Bool-cases (b.remaining == 0)) [
    | inl full ↦ rw (full, write) (write-full (ground arith))
    | inr some ↦ elim (Bool-cases (ltb b.remaining (length bytes))) [
      | inl over ↦ rw (some, over, write) (write-over (ground arith) (ground arith))
      | inr fits ↦ rw (some, fits, write) (write-whole (ground arith) (ground arith))
    ]
  ]

write_all-Holds :
    (limit : ℕ) (sent : List ℕ) (chunks : List (List ℕ)) (b : LimitedBuffer)
    → Holds limit sent b
    → Holds limit (sent ++ concat chunks) (write_all chunks b)
unfolding write_all
write_all-Holds limit sent [] b h = subst (λ l. Holds limit l b) (sym (append_nil sent)) h
write_all-Holds limit sent (bytes ∷ chunks) b h =
    subst (λ l. Holds limit l (write_all chunks (write bytes b)))
      (append_assoc sent bytes (concat chunks))
      (write_all-Holds limit (sent ++ bytes) chunks (write bytes b)
        (write-Holds limit sent bytes b h))

-- However a process splits its output, the buffer holds the first `limit` bytes of it, its
-- `remaining` is what is left of the limit, and it says truncated where there was more output
-- than the limit, but not where there was less.
pub write_all-take :
    (limit : ℕ) (chunks : List (List ℕ))
    → Holds limit (concat chunks) (write_all chunks (fresh limit))
write_all-take limit chunks = write_all-Holds limit [] chunks (fresh limit) (record {
  cut = sym (take_nil limit);
  room = omega arith;
  told = inl (omega arith);
  silent = inr refl;
})
