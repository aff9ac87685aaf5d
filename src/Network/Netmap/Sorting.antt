-- ===== src/Network/Netmap/Sorting.antt =====
-- What pkg/network/netmap.go relies on of `sort.Slice`, with a sort that has it.
use vpn.Prelude.{Bool, inl, inr, List, [], ◌∷◌, All, Bool-cases, if◌then◌else◌}
use vpn.Network.Netmap.{SrcInfo, Sort}

-- Sorting keeps the elements: what holds of all in the sorted slice holds of all in the slice.
pub record IsSort (sort : Sort) : Type 1 where
  pub keeps :
      (less : SrcInfo → SrcInfo → Bool) (P : SrcInfo → Type 0) (infos : List SrcInfo)
      → All P (sort less infos)
      → All P infos

module _ (less : SrcInfo → SrcInfo → Bool) where
  unfoldable pub insert_info : SrcInfo → List SrcInfo → List SrcInfo
  insert_info s [] = s ∷ []
  insert_info s (t ∷ ts) =
      let rest = insert_info s ts in if less t s then t ∷ rest else s ∷ (t ∷ ts)

  unfoldable pub insertion_sort : List SrcInfo → List SrcInfo
  unfolding insert_info
  insertion_sort [] = []
  insertion_sort (s ∷ ss) = insert_info s (insertion_sort ss)

  insert_info-keeps :
      (P : SrcInfo → Type 0) (s : SrcInfo) (ts : List SrcInfo)
      → All P (insert_info s ts)
      → P s × All P ts
  unfolding insert_info
  insert_info-keeps P s [] h = h
  insert_info-keeps P s (t ∷ ts) h = elim (Bool-cases (less t s)) [
    | inl b ↦
        let g : All P (t ∷ insert_info s ts) = rw b at h in
        let rest = insert_info-keeps P s ts g.1 in (rest.0, (g.0, rest.1))
    | inr b ↦ rw b at h
  ]

  insertion_sort-keeps :
      (P : SrcInfo → Type 0) (ss : List SrcInfo) → All P (insertion_sort ss) → All P ss
  unfolding insertion_sort
  insertion_sort-keeps P [] h = tt
  insertion_sort-keeps P (s ∷ ss) h =
      let u = insert_info-keeps P s (insertion_sort ss) h in (u.0, insertion_sort-keeps P ss u.1)

pub insertion_sort-IsSort : IsSort insertion_sort
insertion_sort-IsSort = record { keeps = insertion_sort-keeps }
