-- ===== src/Container/Device.antt =====
-- util.go: the names and the hardware addresses of the devices of containers. `itoa` is how fmt
-- prints a rank.
use konk.Base.{ℕ, ℤ, String, ◌<>◌, List, [], ◌∷◌, Option, none, some}
use konk.Container.Types.{Rank}
use konk.Container.Address.{byte}

unfoldable pub get_dev_name : (ℤ → String) → String → Rank → String
get_dev_name itoa dev_type rank = dev_type <> itoa rank

-- `util.DefaultMAC`
abbrev pub default_mac : List ℕ
default_mac = 66 ∷ 214 ∷ 125 ∷ 247 ∷ 62 ∷ 0 ∷ []

-- An empty address has no first byte to set: `none` is the panic.
unfoldable pub compute_new_hardware_addr : List ℕ → Option (List ℕ)
compute_new_hardware_addr [] = none
compute_new_hardware_addr (b ∷ bs) = some (66 ∷ bs)

-- `s[0] = b` and `s[len(s)-1] = b`, for a list that is not empty.
set_first : ℕ → List ℕ → List ℕ
set_first b [] = []
set_first b (x ∷ xs) = b ∷ xs

set_last : ℕ → List ℕ → List ℕ
set_last b [] = []
set_last b (x ∷ []) = b ∷ []
set_last b (x ∷ y ∷ xs) = x ∷ set_last b (y ∷ xs)

unfoldable pub create_new_hardware_addr : Rank → List ℕ
unfolding set_first set_last
create_new_hardware_addr rank = set_last (byte rank) (set_first 66 default_mac)
