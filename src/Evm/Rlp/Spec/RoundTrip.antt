-- ===== src/Evm/Rlp/Spec/RoundTrip.antt =====
-- An RLP encoding determines what it encodes.
use wallet_bot.Base.{
  ℕ, zero, suc, ◌+◌, ◌≤◌, ◌≡◌, refl, sym, ap, ◌∙◌, true, false, [], ◌∷◌, ◌++◌, ltb, length, arith,
  append_assoc, length-append, Bool-cases, inl, inr,
}
use wallet_bot.Base.Text.{is_empty}
use wallet_bot.Evm.Hex.{Bytes}
use wallet_bot.Evm.Rlp.{RlpInput, bytes, list, RlpItems, nil, item}
use wallet_bot.Evm.Rlp.Spec.{head_of, rlp, rlp_bytes, rlp_items, read_head, decode, decode_items}
use wallet_bot.Evm.Rlp.Spec.Decode.{
  IsSmall, size, size_items, decode_bytes, take_append, drop_append, head_payload, read_list,
  read_bytes,
}

head-is_empty : (n offset : ℕ) (s : Bytes) → is_empty (head_of n offset ++ s) ≡ false
unfolding head_of
head-is_empty n offset s = elim (Bool-cases (ltb n 56)) [ inl e ↦ rw e | inr e ↦ rw e ]

bytes-is_empty : (bs s : Bytes) → is_empty (rlp_bytes bs ++ s) ≡ false
bytes-is_empty [] s = head-is_empty 0 128 s
bytes-is_empty (b ∷ []) s = elim (Bool-cases (ltb b 128)) [
  | inl e ↦ rw e
  | inr e ↦ rw (e, append_assoc (head_of 1 128) (b ∷ []) s) (head-is_empty 1 128 (b ∷ s))
]
bytes-is_empty (b ∷ c ∷ bs) s =
    rw (append_assoc (head_of (length (b ∷ c ∷ bs)) 128) (b ∷ c ∷ bs) s)
      (head-is_empty (length (b ∷ c ∷ bs)) 128 (b ∷ c ∷ (bs ++ s)))

rlp-is_empty : (x : RlpInput) (s : Bytes) → is_empty (rlp x ++ s) ≡ false
unfolding rlp
rlp-is_empty (bytes bs) s = bytes-is_empty bs s
rlp-is_empty (list items) s =
    rw (append_assoc (head_of (length (rlp_items items)) 192) (rlp_items items) s)
      (head-is_empty (length (rlp_items items)) 192 (rlp_items items ++ s))

pub length-bytes-le : (bs : Bytes) → length bs ≤ length (rlp_bytes bs)
length-bytes-le [] = omega arith
length-bytes-le (b ∷ []) = elim (Bool-cases (ltb b 128)) [
  | inl e ↦ rw e (omega arith)
  | inr e ↦ rw e (omega (arith, length-append (head_of 1 128) (b ∷ [])))
]
length-bytes-le (b ∷ c ∷ bs) =
    omega (arith, length-append (head_of (length (b ∷ c ∷ bs)) 128) (b ∷ c ∷ bs))

decode_list :
    (f : ℕ) (p e s : Bytes) (items : RlpItems)
    → read_head (e ++ s) ≡ record { is_list = true; size = length p; after = p ++ s }
    → decode_items f p ≡ items
    → decode (suc f) (e ++ s) ≡ (list items, s)
unfolding decode
decode_list f p e s items h back = rw (h, take_append p s, drop_append p s, back)

decode_cons :
    (f : ℕ) (x : RlpInput) (items : RlpItems) (s rest : Bytes)
    → is_empty s ≡ false
    → decode f s ≡ (x, rest)
    → decode_items f rest ≡ items
    → decode_items (suc f) s ≡ item x items
unfolding decode
decode_cons f x items s rest some_byte first others = rw (first, others, some_byte)

decode_none : (f : ℕ) → decode_items f [] ≡ nil
unfolding decode
decode_none zero = refl
decode_none (suc f) = refl

pub payload-IsSmall :
    (items : RlpItems) → IsSmall (length (rlp (list items))) → IsSmall (length (rlp_items items))
unfolding rlp
payload-IsSmall items small =
    omega (arith, length-append (head_of (length (rlp_items items)) 192) (rlp_items items))

mutual
  unfolding rlp size

  decode_all_lem :
      (x : RlpInput) (f : ℕ) (s : Bytes)
      → size x ≤ f
      → IsSmall (length (rlp x))
      → decode f (rlp x ++ s) ≡ (x, s)
  decode_all_lem (bytes bs) zero s fuel small = absurd (omega arith)
  decode_all_lem (bytes bs) (suc f) s fuel small =
      decode_bytes f bs (rlp_bytes bs) s (read_bytes bs s (omega (arith, length-bytes-le bs)))
  decode_all_lem (list items) zero s fuel small = absurd (omega arith)
  decode_all_lem (list items) (suc f) s fuel small =
      decode_list f (rlp_items items) (head_of (length (rlp_items items)) 192 ++ rlp_items items) s
        items
        (head_payload (rlp_items items) s 192 true
          (λ t. read_list (length (rlp_items items)) t (payload-IsSmall items small)))
        (decode_rlp_items items f (omega arith) (payload-IsSmall items small))

  decode_rlp_items :
      (items : RlpItems) (f : ℕ)
      → size_items items ≤ f
      → IsSmall (length (rlp_items items))
      → decode_items f (rlp_items items) ≡ items
  decode_rlp_items nil f fuel small = decode_none f
  decode_rlp_items (item x items) zero fuel small = absurd (omega arith)
  decode_rlp_items (item x items) (suc f) fuel small =
      decode_cons f x items (rlp x ++ rlp_items items) (rlp_items items)
        (rlp-is_empty x (rlp_items items))
        (decode_all_lem x f (rlp_items items) (omega arith)
          (omega (arith, length-append (rlp x) (rlp_items items))))
        (decode_rlp_items items f (omega arith)
          (omega (arith, length-append (rlp x) (rlp_items items))))

-- The decoder reads an encoding of less than 2 ^ 64 bytes back, and leaves what follows it, for
-- every fuel that is at least the size of the input.
pub decode-rlp :
    (x : RlpInput) (fuel : ℕ) (s : Bytes)
    → size x ≤ fuel
    → IsSmall (length (rlp x))
    → decode fuel (rlp x ++ s) ≡ (x, s)
decode-rlp x fuel s enough small = decode_all_lem x fuel s enough small

-- Different inputs have different encodings.
pub rlp-injective :
    (x y : RlpInput) → IsSmall (length (rlp x)) → IsSmall (length (rlp y)) → rlp x ≡ rlp y → x ≡ y
rlp-injective x y hx hy e =
    ap (λ p. p.0)
      (sym (decode-rlp x (size x + size y) [] (omega arith) hx)
        ∙ ap (λ b. decode (size x + size y) (b ++ [])) e
        ∙ decode-rlp y (size x + size y) [] (omega arith) hy)
