-- ===== src/Api/Office/Shop.antt =====
-- Sequences of the requests of api/v1/seed_purchases.py: purchases and their reviews.
use agri_flow.Prelude.{ℕ, ◌≡◌, refl, ◌∙◌, arith, String, Option, List}
use agri_flow.Enums.{PaymentStatus}
use agri_flow.Models.{Db}
use agri_flow.Session.{Action, World}
use agri_flow.Permissions.{Claims}
use agri_flow.Purchase.{purchase_seeds, update_purchase_status}
use agri_flow.Purchase.Admit.{Request}
use agri_flow.Purchase.Stock.{IsHeld, supply}
use agri_flow.Purchase.Hold.{purchase_seeds-IsHeld}
use agri_flow.Purchase.Review.{update_purchase_status-IsHeld}
use agri_flow.Api.{requests}
use agri_flow.Api.Keeps.{Keeps, answered-Keeps, endpoint-Keeps, requests-Keeps}
use agri_flow.Api.Office.{OfficeCall, serve_office}

pub data ShopCall : Type 0 where
  buy : Request → ℕ → ℕ → String → ShopCall
  review : ℕ → PaymentStatus → ShopCall

abbrev pub as_call : ShopCall → OfficeCall
as_call (ShopCall.buy r k l invoice) = OfficeCall.create_purchase_call r k l invoice
as_call (ShopCall.review p new_status) = OfficeCall.update_purchase_status_call p new_status

abbrev pub serve_shop : (String → Option Claims) → ℕ × Option String × ShopCall → Action (Unit {0})
serve_shop decode_token (today, token, c) = serve_office decode_token (today, token, as_call c)

-- the counters hold, and every seed's supply is the one of `d₀`
abbrev SuppliedAs : Db → Db → Type 0
SuppliedAs d₀ d = IsHeld d × ((i : ℕ) → supply i d ≡ supply i d₀)

module _ (decode_token : String → Option Claims) (d₀ : Db) where
  serve_shop-Keeps :
      (c : ℕ × Option String × ShopCall) → Keeps (SuppliedAs d₀) (serve_shop decode_token c)
  unfolding serve_office
  serve_shop-Keeps (today, token, ShopCall.buy r k l invoice) =
      endpoint-Keeps (SuppliedAs d₀) decode_token token _ _ _ λ i user v.
        answered-Keeps (SuppliedAs d₀) (purchase_seeds i r k l invoice) λ s a h before.
          let after = purchase_seeds-IsHeld i r k l invoice s a (ground arith) before.0 h in
          (after.0, λ j. after.1 j ∙ before.1 j)
  serve_shop-Keeps (today, token, ShopCall.review p new_status) =
      endpoint-Keeps (SuppliedAs d₀) decode_token token _ _ _ λ i user v.
        answered-Keeps (SuppliedAs d₀) (update_purchase_status i p new_status) λ s a h before.
          let after = update_purchase_status-IsHeld i p new_status s a before.0 h in
          (after.0, λ j. after.1 j ∙ before.1 j)

-- From committed rows that satisfy `IsHeld`, any sequence of purchases of seeds and of reviews of
-- purchases, each as a request with its checks and its commit or rollback, commits rows that
-- satisfy it: each seed's quantity on hold is that of its pending purchases and its stock is not
-- negative. The sum of what is in stock, on hold and paid for is for every seed what it was before
-- the sequence.
pub shop-IsHeld :
    (decode_token : String → Option Claims) (calls : List (ℕ × Option String × ShopCall))
    (w : World)
    → IsHeld w.committed
    → let after = (requests (serve_shop decode_token) calls w).committed in
      IsHeld after × ((i : ℕ) → supply i after ≡ supply i w.committed)
shop-IsHeld decode_token calls w inv =
    requests-Keeps (SuppliedAs w.committed) (serve_shop decode_token)
      (serve_shop-Keeps decode_token w.committed) calls w (inv, λ i. refl)
