-- ===== src/Compression/Copy.antt =====
-- `copy_back` and the back-reference branch: a copy that may overlap its own output.
use rust_fs_ntfs.Base.{ℕ, zero, suc, ◌+◌, ◌-◌, ◌≤◌, ◌<◌, ◌≡◌, refl, arith, inl, inr}
use rust_fs_ntfs.Base.{ap, sym, ◌∙◌, ltb, ◌||◌, Bool-cases}
use rust_fs_ntfs.Base.{List, [], ◌∷◌, ◌++◌, length, length-append, byte_at, index_lem}
use rust_fs_ntfs.Base.{get_or-append_left, get_or-append_right, Result, ok, err, io}
use native.Mathlib.Decide.{dec_lt}
use rust_fs_ntfs.Compression.{chunk_size, copy_back, back_reference}
use rust_fs_ntfs.Compression.Token.{split_token-cases}

-- `out'` is `out` and `n` more bytes, each equal to the byte at the same distance from `start`.
pub record IsCopied (start n : ℕ) (out out' : List ℕ) : Type 0 where
  pub grows : length out' ≡ length out + n
  pub keeps : (j : ℕ) → j < length out → byte_at out' j ≡ byte_at out j
  pub repeats : (i : ℕ) → i < n → byte_at out' (length out + i) ≡ byte_at out' (start + i)

IsCopied-push :
    (start n : ℕ) (out out' : List ℕ)
    → start < length out
    → IsCopied (suc start) n (out ++ (byte_at out start ∷ [])) out'
    → IsCopied start (suc n) out out'
IsCopied-push start n out out' h c =
    let pushed = out ++ (byte_at out start ∷ []) in
    let longer = length-append out (byte_at out start ∷ []) in
    let keeps : (j : ℕ) → j < length out → byte_at out' j ≡ byte_at out j =
      λ j k. c.keeps j (omega (arith, longer)) ∙ get_or-append_left out _ j 0 k in
    record {
      grows = omega (arith, c.grows, longer);
      keeps = keeps;
      repeats = λ i k. elim (dec_lt 0 i) [
        | yes later ↦
            ap (byte_at out') (omega (arith, longer))
            ∙ c.repeats (i - 1) (omega arith)
            ∙ ap (byte_at out') (omega arith)
        | no here ↦
            let e : i ≡ 0 = omega arith in
            rw e (
              c.keeps (length out + 0) (omega (arith, longer))
              ∙ get_or-append_right out (byte_at out start ∷ []) 0 0
              ∙ sym (keeps start h)
              ∙ ap (byte_at out') (omega arith))
      ];
    }

copy_back_step :
    (n start : ℕ) (out : List ℕ)
    → start < length out
    → copy_back (suc n) start out ≡ copy_back n (suc start) (out ++ (byte_at out start ∷ []))
unfolding copy_back
copy_back_step n start out h = rw (index_lem out start h) refl

-- A copy from inside the output does not panic: the output grows by the length, and each new byte
-- is the byte at the same distance back in the output, new ones included.
pub copy_back-IsCopied :
    (n start : ℕ) (out : List ℕ)
    → start < length out
    → (out' : List ℕ) × (copy_back n start out ≡ ok out') × IsCopied start n out out'
copy_back-IsCopied zero start out h = (
  out,
  (unfold copy_back in refl),
  record { grows = omega arith; keeps = λ j k. refl; repeats = λ i k. absurd (omega arith) },
)
copy_back-IsCopied (suc n) start out h =
    let pushed = out ++ (byte_at out start ∷ []) in
    let (out', runs, c) =
      copy_back-IsCopied n (suc start) pushed
        (omega (arith, length-append out (byte_at out start ∷ []))) in
    (out', copy_back_step n start out h ∙ runs, IsCopied-push start n out out' h c)

-- A back-reference inside a chunk fails with an error, or it copies: 3 bytes or more, from a
-- displacement that lies in the chunk, and not past the end of the chunk.
pub data Referred (chunk_start : ℕ) (out : List ℕ) (r : Result (List ℕ)) : Type 0 where
  refused : r ≡ err io → Referred chunk_start out r
  copied :
      (len displacement : ℕ) (out' : List ℕ)
      → 3 ≤ len
      → 1 ≤ displacement
      → displacement + chunk_start ≤ length out
      → length out + len ≤ chunk_start + chunk_size
      → r ≡ ok out'
      → IsCopied (length out - displacement) len out out'
      → Referred chunk_start out r

-- In a chunk that is not over its size, a back-reference is refused with an error, or it copies
-- from inside the chunk and stays inside its 4096 bytes.
pub back_reference-Referred :
    (token chunk_start : ℕ) (out : List ℕ)
    → chunk_start ≤ length out
    → length out ≤ chunk_start + chunk_size
    → Referred chunk_start out (back_reference token chunk_start out)
unfolding back_reference
back_reference-Referred token start out h k =
    let cur = length out - start in
    elim (split_token-cases token cur (omega arith)) [
      | inl (_, e) ↦ refused (rw e refl)
      | inr (len, d, c1, l3, d1, e) ↦ elim (Bool-cases (ltb cur d || ltb chunk_size (cur + len))) [
        | inl bad ↦ refused (rw (e, bad) refl)
        | inr good ↦
            let (out', runs, c) = copy_back-IsCopied len (length out - d) out (omega arith) in
            copied len d out' l3 d1 (ground (arith, good)) (ground (arith, good))
              (rw (e, good) runs) c
      ]
    ]
