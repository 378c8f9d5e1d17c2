-- ===== src/Tests/Amount.antt =====
-- A price in rupees: the text " 0049.5 " becomes "49.50", which is 4950 paise.
use trademart_b.Prelude.{ℕ, ◌≡◌, refl, some, [], ◌∷◌, Chars, trim_chars}
use trademart_b.Storefront.Amount.{normalize_inr_amount, inr_amount_to_paise}
use trademart_b.Storefront.Amount.Spelled.{Spells}
use trademart_b.Storefront.Amount.Normal.{IsAmount, normalize_inr_amount-IsAmount}

abbrev raw : Chars
raw = 32 ∷ 48 ∷ 48 ∷ 52 ∷ 57 ∷ 46 ∷ 53 ∷ 32 ∷ []

abbrev normal : Chars
normal = 52 ∷ 57 ∷ 46 ∷ 53 ∷ 48 ∷ []

read_paise : inr_amount_to_paise raw ≡ some 4950
unfolding inr_amount_to_paise trim_chars
read_paise = refl

normalize_inr_amount-IsAmount_example :
    (paise : ℕ) × (inr_amount_to_paise raw ≡ some paise)
    × Spells (trim_chars raw) paise
    × IsAmount normal paise
    × (normalize_inr_amount (some normal) ≡ some normal)
    × (inr_amount_to_paise normal ≡ some paise)
unfolding normalize_inr_amount trim_chars
normalize_inr_amount-IsAmount_example = normalize_inr_amount-IsAmount raw normal refl
