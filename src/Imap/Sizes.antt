-- ===== src/Imap/Sizes.antt =====
-- internal/imap/message.go: the sum of the sizes that `FetchAllSizes` returns.
use go_boxcopy.Base.{ℕ, ◌+◌, ◌%◌, ◌^◌, ◌<◌, ◌≡◌, List, [], ◌∷◌, arith}
use go_boxcopy.Imap.Data.{
  FetchItem, item_uid, item_flags, item_internal_date, item_size, item_envelope, item_body,
  item_other, FetchData,
}
use go_boxcopy.Imap.Messages.{item_sizes, total_size}

-- The sizes added up without a bound.
abbrev pub exact_items : List FetchItem → ℕ
exact_items [] = 0
exact_items (item_size n ∷ items) = n + exact_items items
exact_items (_ ∷ items) = exact_items items

abbrev pub exact_size : List FetchData → ℕ
exact_size [] = 0
exact_size (msg ∷ msgs) = exact_items msg.items + exact_size msgs

item_sizes_lem :
    (total : ℕ) (items : List FetchItem)
    → total < 2 ^ 64
    → item_sizes total items ≡ (total + exact_items items) % 2 ^ 64
unfolding item_sizes
item_sizes_lem total [] h = omega arith
item_sizes_lem total (item_size n ∷ items) h =
    omega (arith, item_sizes_lem ((total + n) % 2 ^ 64) items (omega arith))
item_sizes_lem total (item_uid _ ∷ items) h = item_sizes_lem total items h
item_sizes_lem total (item_flags _ ∷ items) h = item_sizes_lem total items h
item_sizes_lem total (item_internal_date _ ∷ items) h = item_sizes_lem total items h
item_sizes_lem total (item_envelope _ ∷ items) h = item_sizes_lem total items h
item_sizes_lem total (item_body _ ∷ items) h = item_sizes_lem total items h
item_sizes_lem total (item_other ∷ items) h = item_sizes_lem total items h

total_from :
    (total : ℕ) (msgs : List FetchData)
    → total < 2 ^ 64
    → total_size total msgs ≡ (total + exact_size msgs) % 2 ^ 64
unfolding total_size
total_from total [] h = omega arith
total_from total (msg ∷ msgs) h = omega (
  arith,
  item_sizes_lem total msg.items h,
  total_from (item_sizes total msg.items) msgs (omega (arith, item_sizes_lem total msg.items h)),
)

-- The total of all responses is the sum of the sizes in them, modulo 2 ^ 64.
pub total_size_lem : (msgs : List FetchData) → total_size 0 msgs ≡ exact_size msgs % 2 ^ 64
total_size_lem msgs = omega (arith, total_from 0 msgs (omega arith))
