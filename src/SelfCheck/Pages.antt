-- ===== src/SelfCheck/Pages.antt =====
-- selfcheck.go: the loop over the pages of a listing, which every check runs. A page that is not full
-- is the last one. The fuel is one more than the records that there are.
pub mod Total
use distledger.Base.{ℕ, zero, suc, List, [], ◌∷◌, length, ltb, if◌then◌else◌}
use distledger.Base.Int.{ℤ, pos}
use distledger.Memory.Listing.{Page, max_page_limit}
use distledger.Memory.Tx.{Tx, pure, ◌>>=◌}

-- The loop over a page.
unfoldable pub each_of : {V S : Type 0} → (V → S → Tx S) → List V → S → Tx S
each_of step [] s = pure s
each_of step (v ∷ vs) s = step v s >>= λ s'. each_of step vs s'

-- The id of the last record of a page.
abbrev pub last_id : {V : Type 0} → (V → ℤ) → ℤ → List V → ℤ
last_id id_of after [] = after
last_id id_of after (v ∷ vs) = last_id id_of (id_of v) vs

abbrev pub full_page : ℤ → Page
full_page after = record { after_id = after; limit = pos max_page_limit }

-- A page, if there is one, and the pages behind it, unless it is not full.
unfoldable pub after_page :
    {V S : Type 0} → (V → ℤ) → (V → S → Tx S) → (ℤ → S → Tx S) → ℤ → S → List V → Tx S
after_page id_of step later after s [] = pure s
after_page id_of step later after s (v ∷ vs) = each_of step (v ∷ vs) s >>= λ s'.
    if ltb (length (v ∷ vs)) max_page_limit
    then pure s'
    else later (last_id id_of after (v ∷ vs)) s'

unfoldable pub paged :
    {V S : Type 0} → ℕ → (ℤ → Tx (List V)) → (V → ℤ) → (V → S → Tx S) → ℤ → S → Tx S
paged zero read id_of step after s = pure s
paged (suc n) read id_of step after s =
    read after >>= λ page. after_page id_of step (paged n read id_of step) after s page
