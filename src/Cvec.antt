-- ===== src/Cvec.antt =====
-- include/sys/cvec.h: views of arrays, and the searches in them. An iterator, a pointer into the array,
-- is the index of what it points to.
pub mod Laws
use eoblock.Prelude.{
  ℕ, zero, suc, ◌+◌, Bool, Option, none, some, List, length, get_elem?, ◌==◌, if◌then◌else◌,
}
use eoblock.Macros.{sub64}
use eoblock.Sysfs.Words.{same_text}

-- `c_vec_t`
pub record CVec : Type 0 where
  pub p : ℕ
  pub count : ℕ

abbrev pub c_vec_data : CVec → ℕ
c_vec_data v = v.p

abbrev pub c_vec_length : CVec → ℕ
c_vec_length v = v.count

abbrev pub c_vec_first : CVec → ℕ
c_vec_first v = c_vec_data v

abbrev pub c_vec_last : CVec → ℕ
c_vec_last v = v.p + v.count

abbrev pub c_vec_is_end : CVec → ℕ → Bool
c_vec_is_end v iter = c_vec_last v == iter

abbrev pub c_vec_at_ptr : CVec → ℕ → ℕ
c_vec_at_ptr v i = v.p + i

-- The difference of two pointers as a size_t.
abbrev pub c_vec_diff : ℕ → ℕ → ℕ
c_vec_diff iter2 iter1 = sub64 iter2 iter1

-- A single element, and no element, whose pointer is NULL.
abbrev c_vec_from_single : CVec
c_vec_from_single = record { p = 0; count = 1 }

abbrev c_vec_from_empty : CVec
c_vec_from_empty = record { p = 0; count = 0 }

abbrev pub c_vec_from_range : ℕ → ℕ → CVec
c_vec_from_range first last = record { p = first; count = sub64 last first }

-- Over the memory of an array.
module _ {ℓ} {A : Type ℓ} (memory : List A) where
  -- c_vec_from, and c_vec_from_static: the whole array.
  abbrev pub c_vec_from : CVec
  c_vec_from = record { p = 0; count = length memory }

  abbrev pub c_vec_from_start : ℕ → CVec
  c_vec_from_start first = record { p = first; count = sub64 (length memory) first }

  -- `v->p[i]`; `none` is an access outside the array.
  abbrev pub c_vec_at : CVec → ℕ → Option A
  c_vec_at v i = get_elem? memory (v.p + i)

  -- `if (test(iter)) break;`, with the iterator of the element that was read.
  abbrev break_if : (A → Bool) → ℕ → Option A → Option ℕ → Option ℕ
  break_if test iter none rest = none
  break_if test iter (some x) rest = if test x then some iter else rest

  -- The loop of c_vec_foreach_ptr in the searches, over the elements that are left from `i` on.
  unfoldable pub find_from : (A → Bool) → CVec → ℕ → ℕ → Option ℕ
  find_from test v zero i = some (c_vec_last v)
  find_from test v (suc n) i =
      let rest = find_from test v n (i + 1) in break_if test (c_vec_at_ptr v i) (c_vec_at v i) rest

  abbrev pub c_vec_find_by_str_field : CVec → List ℕ → (A → List ℕ) → Option ℕ
  c_vec_find_by_str_field v val field =
      find_from (λ x. same_text (field x) val) v (c_vec_length v) 0

  abbrev pub c_vec_find_by_int_field : CVec → ℕ → (A → ℕ) → Option ℕ
  c_vec_find_by_int_field v val field = find_from (λ x. field x == val) v (c_vec_length v) 0

  abbrev pub cut_at : CVec → Option ℕ → Option CVec
  cut_at v none = none
  cut_at v (some iter) = some (record v { count = c_vec_diff iter (c_vec_first v) })

  unfoldable pub c_vec_truncate_by_int : CVec → ℕ → (A → ℕ) → Option CVec
  c_vec_truncate_by_int v val field = cut_at v (c_vec_find_by_int_field v val field)
