-- ===== src/Header/Decode.antt =====
-- Any 512 bytes are a header: reading them gives values that the structure can hold, and the
-- header's bytes are those that were read.
use eoblock.Header.{
  FitsNodes, FitsHeader, encode_node, encode_nodes, encode_preamble, encode, decode_node,
  decode_nodes, decode,
}
use eoblock.Prelude.{
  ℕ, zero, suc, ◌+◌, ◌*◌, ◌^◌, ◌≤◌, ◌<◌, ◌≡◌, refl, sym, ap, ap₂, ◌∙◌, arith, List, [], ◌∷◌, ◌++◌,
  length, take, drop, length-take, length-drop, take_add, drop-drop, take_all, le_bytes, le_value,
  AllBytes, le_value-lt, le_bytes-le_value,
}

pub AllBytes-take : (n : ℕ) (bs : List ℕ) → AllBytes bs → AllBytes (take n bs)
AllBytes-take zero bs h = tt
AllBytes-take (suc n) [] h = tt
AllBytes-take (suc n) (b ∷ bs) h = (h.0, AllBytes-take n bs h.1)

AllBytes-drop : (n : ℕ) (bs : List ℕ) → AllBytes bs → AllBytes (drop n bs)
AllBytes-drop zero bs h = h
AllBytes-drop (suc n) [] h = tt
AllBytes-drop (suc n) (b ∷ bs) h = AllBytes-drop n bs h.1

-- A field of `n` bytes.
field-lt : (n : ℕ) (bs : List ℕ) → AllBytes bs → n ≤ length bs → le_value (take n bs) < 256 ^ n
field-lt n bs h fits =
    let e : length (take n bs) ≡ n = omega (arith, length-take {0} n bs) in
    rw e at (le_value-lt (take n bs) (AllBytes-take n bs h))

field-bytes :
    (n : ℕ) (bs : List ℕ)
    → AllBytes bs
    → n ≤ length bs
    → le_bytes n (le_value (take n bs)) ≡ take n bs
field-bytes n bs h fits =
    let e : length (take n bs) ≡ n = omega (arith, length-take {0} n bs) in
    rw e at (le_bytes-le_value (take n bs) (AllBytes-take n bs h))

-- Two parts that are the first bytes and the next are the bytes together.
join :
    (n m : ℕ) (a b r bs : List ℕ)
    → a ≡ take n bs
    → drop n bs ≡ r
    → b ≡ take m r
    → a ++ b ≡ take (n + m) bs
join n m a b r bs e f g = ap₂ ◌++◌ e (g ∙ ap (take m) (sym f)) ∙ take_add n m bs

encode_node-decode_node :
    (bs : List ℕ) → AllBytes bs → 8 ≤ length bs → encode_node (decode_node bs) ≡ take 8 bs
unfolding encode_node decode_node
encode_node-decode_node bs h fits =
    join 4 4 _ _ _ _ (field-bytes 4 bs h (omega arith)) refl
      (field-bytes 4 (drop 4 bs) (AllBytes-drop 4 bs h) (omega (arith, length-drop {0} 4 bs)))

encode_nodes-decode_nodes :
    (n : ℕ) (bs : List ℕ)
    → AllBytes bs
    → 8 * n ≤ length bs
    → encode_nodes (decode_nodes n bs) ≡ take (8 * n) bs
unfolding encode_nodes decode_nodes
encode_nodes-decode_nodes zero bs h fits = refl
encode_nodes-decode_nodes (suc n) bs h fits =
    let e : 8 * suc n ≡ 8 + 8 * n = omega arith in
    rw e (
      join 8 (8 * n) _ _ _ _ (encode_node-decode_node bs h (omega arith)) refl (
        encode_nodes-decode_nodes n (drop 8 bs) (AllBytes-drop 8 bs h)
          (omega (arith, length-drop {0} 8 bs))))

length-decode_nodes : (n : ℕ) (bs : List ℕ) → length (decode_nodes n bs) ≡ n
unfolding decode_nodes
length-decode_nodes zero bs = refl
length-decode_nodes (suc n) bs = ap suc (length-decode_nodes n (drop 8 bs))

module _ (bs : List ℕ) (h : AllBytes bs) (size : length bs ≡ 512) where
  -- A number of `n` bytes at offset `o`.
  at-lt : (o n : ℕ) → o + n ≤ 512 → le_value (take n (drop o bs)) < 256 ^ n
  at-lt o n fits =
      field-lt n (drop o bs) (AllBytes-drop o bs h) (omega (arith, length-drop {0} o bs))

  at-bytes :
      (o n : ℕ) → o + n ≤ 512 → le_bytes n (le_value (take n (drop o bs))) ≡ take n (drop o bs)
  at-bytes o n fits =
      field-bytes n (drop o bs) (AllBytes-drop o bs h) (omega (arith, length-drop {0} o bs))

  FitsNodes-decode_nodes : (n o : ℕ) → o + 8 * n ≤ 512 → FitsNodes (decode_nodes n (drop o bs))
  unfolding decode_nodes
  FitsNodes-decode_nodes zero o fits = tt
  FitsNodes-decode_nodes (suc n) o fits = (
    (at-lt o 4 (omega arith), rw (drop-drop o 4 bs) (at-lt (o + 4) 4 (omega arith))),
    rw (drop-drop o 8 bs) (FitsNodes-decode_nodes n (o + 8) (omega arith)),
  )

  -- What is read is a header that the structure can hold.
  pub FitsHeader-decode : FitsHeader (decode bs)
  unfolding decode
  FitsHeader-decode = record {
    preamble = record {
      magic = at-lt 0 8 (omega arith);
      version = at-lt 8 8 (omega arith);
      phys = at-lt 16 8 (omega arith);
      virt = at-lt 24 8 (omega arith);
      count = at-lt 32 8 (omega arith);
      table = length-decode_nodes 32 (drop 40 bs);
      nodes = FitsNodes-decode_nodes 32 40 (omega arith);
    };
    padding = omega (arith, length-take {0} 208 (drop 296 bs), length-drop {0} 296 bs);
    padding_bytes = AllBytes-take 208 (drop 296 bs) (AllBytes-drop 296 bs h);
    chksum = at-lt 504 8 (omega arith);
  }

  encode_preamble-decode : encode_preamble (decode bs).h ≡ take 296 bs
  unfolding decode encode_preamble
  encode_preamble-decode = join 8 288 _ _ _ _ (at-bytes 0 8 (omega arith)) refl (
      join 8 280 _ _ _ _ (at-bytes 8 8 (omega arith)) (drop-drop 8 8 bs) (
        join 8 272 _ _ _ _ (at-bytes 16 8 (omega arith)) (drop-drop 16 8 bs) (
          join 8 264 _ _ _ _ (at-bytes 24 8 (omega arith)) (drop-drop 24 8 bs) (
            join 8 256 _ _ _ _ (at-bytes 32 8 (omega arith)) (drop-drop 32 8 bs) (
              encode_nodes-decode_nodes 32 (drop 40 bs) (AllBytes-drop 40 bs h)
                (omega (arith, length-drop {0} 40 bs)))))))

  -- The bytes of the header that is read from 512 bytes are those bytes.
  pub encode-decode : encode (decode bs) ≡ bs
  unfolding decode encode
  encode-decode =
      join 296 216 _ _ _ _ encode_preamble-decode refl
        (join 208 8 _ _ _ _ refl (drop-drop 296 208 bs) (at-bytes 504 8 (omega arith)))
      ∙ take_all 512 bs (omega arith)
