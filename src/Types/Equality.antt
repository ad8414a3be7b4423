-- ===== src/Types/Equality.antt =====
-- `==` of byte strings, of label sequences and of names decides equality; of names, up to case.
use dnsentinal.Common.{◌≡◌, true, ◌↔◌, List, list_eq_iff, ==_iff}
use dnsentinal.Types.{Bytes, Name, bytes_eq, labels_eq, name_eq}

pub bytes_eq_iff : (a b : Bytes) → (bytes_eq a b ≡ true) ↔ (a ≡ b)
unfolding bytes_eq
bytes_eq_iff = list_eq_iff _ ==_iff

pub labels_eq_iff : (a b : List Bytes) → (labels_eq a b ≡ true) ↔ (a ≡ b)
unfolding labels_eq
labels_eq_iff = list_eq_iff _ bytes_eq_iff

pub name_eq_iff : (n o : Name) → (name_eq n o ≡ true) ↔ (n.labels ≡ o.labels)
unfolding name_eq
name_eq_iff n o = labels_eq_iff n.labels o.labels
