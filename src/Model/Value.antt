-- ===== src/Model/Value.antt =====
-- `Value` and `Document` of crates/core-model/src/lib.rs. A `Document` is a `BTreeMap` from names
-- to values; as a value holds documents, both and the arrays stand in one block.
use replay_kit.Common.{ℕ, suc, String, Bool, true, false, ◌&&◌, Option, none, some, if◌then◌else◌}
use replay_kit.Common.Eq.{◌==◌, string_eq, string_lt, nat_eq}
use replay_kit.Common.Int.{ℤ, pos, negsuc}

mutual
  pub data Value : Type 0 where
    null : Value
    bool : Bool → Value
    int : ℤ → Value
    text : String → Value
    array : Values → Value
    object : Document → Value

  pub data Values : Type 0 where
    nil : Values
    cons : Value → Values → Values

  pub data Document : Type 0 where
    empty : Document
    entry : String → Value → Document → Document

-- `get` and `insert` of the map.
unfoldable pub lookup_field : String → Document → Option Value
lookup_field k empty = none
lookup_field k (entry j v d) = if j == k then some v else lookup_field k d

unfoldable pub insert_field : String → Value → Document → Document
unfolding string_lt
insert_field k v empty = entry k v empty
insert_field k v (entry j w d) =
    if j == k
    then entry k v d
    else if string_lt k j
    then entry k v (entry j w d)
    else entry j w (insert_field k v d)

unfoldable pub fields_count : Document → ℕ
fields_count empty = 0
fields_count (entry k v d) = suc (fields_count d)

-- `==` of values and of documents, by their parts.
abbrev pub int_beq : ℤ → ℤ → Bool
int_beq (pos m) (pos n) = m == n
int_beq (negsuc m) (negsuc n) = m == n
int_beq _ _ = false

abbrev pub bool_beq : Bool → Bool → Bool
bool_beq true b = b
bool_beq false true = false
bool_beq false false = true

unfoldable mutual
  pub value_beq : Value → Value → Bool
  value_beq null null = true
  value_beq (bool a) (bool b) = bool_beq a b
  value_beq (int a) (int b) = int_beq a b
  value_beq (text a) (text b) = a == b
  value_beq (array a) (array b) = values_beq a b
  value_beq (object a) (object b) = document_beq a b
  value_beq _ _ = false

  pub values_beq : Values → Values → Bool
  values_beq nil nil = true
  values_beq (cons a as_) (cons b bs) = value_beq a b && values_beq as_ bs
  values_beq _ _ = false

  pub document_beq : Document → Document → Bool
  document_beq empty empty = true
  document_beq (entry j a d) (entry k b e) = j == k && value_beq a b && document_beq d e
  document_beq _ _ = false
