-- ===== src/Admin/Spec.antt =====
-- What the header promises to an administrator: which nodes are members of the cluster, and with
-- what data. No bytes, checksums or system calls, and no trace of a node that is not a member.
use eoblock.Prelude.{
  ℕ, Bool, true, false, ◌&&◌, ◌||◌, Option, none, some, get_elem?, ltb, ◌==◌, if◌then◌else◌,
}
use eoblock.Header.{NodeData, Header}
use eoblock.Admin.{is_present}

abbrev pub Members : Type 0
Members = ℕ → Option NodeData

-- What a node's data in the table mean.
abbrev pub if_present : Option NodeData → Option NodeData
if_present none = none
if_present (some n) = if is_present n then some n else none

-- The members that a header records.
abbrev pub members : Header → Members
members hdr i = if_present (get_elem? hdr.h.nodes i)

abbrev pub is_none : Option NodeData → Bool
is_none none = true
is_none (some n) = false

abbrev pub update : Members → ℕ → Option NodeData → Members
update m i v j = if j == i then v else m j

-- A place below `capacity` that is free, or taken by force, gets the node; `none` is a refusal.
abbrev pub add : ℕ → ℕ → NodeData → Bool → Members → Option Members
add capacity i n force m =
    if ltb i capacity && (force || is_none (m i))
    then some (update m i (if_present (some n)))
    else none

-- Nobody is at the place afterwards.
abbrev pub remove : ℕ → Members → Members
remove i m = update m i none
