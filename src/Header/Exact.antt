-- ===== src/Header/Exact.antt =====
-- The structure and its bytes are one to one: `struct eob_header` leaves no byte out, and every
-- string of 512 bytes is one.
use mathlib.Core.HLevel.{Σ_prop_path, ×_prop}
use std.Equiv.{IsEquiv, iso_to_equiv}
use native.Mathlib.Nat.{ℕ_set}
use native.Mathlib.Bridge.{le_prop}
use eoblock.Header.{Header, Preamble, NodeData, FitsNodes, FitsPreamble, FitsHeader, encode, decode}
use eoblock.Header.RoundTrip.{decode-encode, length-encode, AllBytes-encode}
use eoblock.Header.Decode.{FitsHeader-decode, encode-decode}
use eoblock.Prelude.{ℕ, ◌≡◌, List, [], ◌∷◌, length, AllBytes}

AllBytes-prop : (bs : List ℕ) → IsProp (AllBytes bs)
AllBytes-prop [] = hlevel
AllBytes-prop (b ∷ bs) = ×_prop le_prop (AllBytes-prop bs)

FitsNodes-prop : (ns : List NodeData) → IsProp (FitsNodes ns)
FitsNodes-prop [] = hlevel
FitsNodes-prop (n ∷ ns) = ×_prop (×_prop le_prop le_prop) (FitsNodes-prop ns)

FitsPreamble-prop : (p : Preamble) → IsProp (FitsPreamble p)
FitsPreamble-prop p f g = λ i. record {
  magic = le_prop f.magic g.magic i;
  version = le_prop f.version g.version i;
  phys = le_prop f.phys g.phys i;
  virt = le_prop f.virt g.virt i;
  count = le_prop f.count g.count i;
  table = ℕ_set _ _ f.table g.table i;
  nodes = FitsNodes-prop p.nodes f.nodes g.nodes i;
}

FitsHeader-prop : (hdr : Header) → IsProp (FitsHeader hdr)
FitsHeader-prop hdr f g = λ i. record {
  preamble = FitsPreamble-prop hdr.h f.preamble g.preamble i;
  padding = ℕ_set _ _ f.padding g.padding i;
  padding_bytes = AllBytes-prop hdr.padding f.padding_bytes g.padding_bytes i;
  chksum = le_prop f.chksum g.chksum i;
}

abbrev Are512 : List ℕ → Type 0
Are512 bs = AllBytes bs × (length bs ≡ 512)

Are512-prop : (bs : List ℕ) → IsProp (Are512 bs)
Are512-prop bs = ×_prop (AllBytes-prop bs) (ℕ_set _ _)

-- The memory that a read fills, and the structures with fields in their types.
abbrev HeaderBytes : Type 0
HeaderBytes = (bs : List ℕ) × Are512 bs

abbrev FittingHeader : Type 0
FittingHeader = (hdr : Header) × FitsHeader hdr

abbrev as_header : HeaderBytes → FittingHeader
as_header b = (decode b.0, FitsHeader-decode b.0 b.1.0 b.1.1)

abbrev as_bytes : FittingHeader → HeaderBytes
as_bytes h = (encode h.0, (AllBytes-encode h.1, length-encode h.1))

-- To read a header in memory is a bijection between the strings of 512 bytes and the structures
-- whose fields are in their types: it forgets nothing, and every such structure is read from some
-- bytes.
pub as_header-IsEquiv : IsEquiv as_header
as_header-IsEquiv =
    (iso_to_equiv (record {
      fun = as_header;
      inv = as_bytes;
      rinv = λ h. Σ_prop_path FitsHeader-prop (decode-encode h.1);
      linv = λ b. Σ_prop_path Are512-prop (encode-decode b.0 b.1.0 b.1.1);
    })).1
