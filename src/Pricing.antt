-- ===== src/Pricing.antt =====
-- src/orchestrator/zenmux-pricing.ts: the cost of a turn from ZenMux's catalog. Thresholds are whole numbers of tokens;
-- the numbers that prices and costs are, and their arithmetic, are arguments.
pub mod Tier
use openclaw_managed_agents.Prelude.{
  ℕ, ◌+◌, ◌*◌, String, Bool, false, ◌&&◌, Option, none, some, List, [], ◌∷◌, leb, str_eq,
  if◌then◌else◌, get_or, is_some, filter, find,
}
use openclaw_managed_agents.Prelude.Sort.{sort}
use openclaw_managed_agents.JsMap
use openclaw_managed_agents.JsMap.{JsMap}

pub record Numbers (V : Type 0) : Type 0 where
  pub zero_cost : V
  pub plus : V → V → V
  pub times : V → V → V
  -- `tokens / 1_000_000`.
  pub millions : ℕ → V

pub record PromptTokens : Type 0 where
  pub unit_name : Option String
  pub gte : Option ℕ
  pub gt : Option ℕ

pub record ZenMuxPricingEntry (V : Type 0) : Type 0 where
  pub price : Option V
  pub unit_name : Option String
  pub currency : Option String
  pub prompt_tokens : Option PromptTokens

pub record ZenMuxCatalogModel (V : Type 0) : Type 0 where
  pub id : Option String
  pub pricings : JsMap (List (ZenMuxPricingEntry V))

abbrev is_named : Option String → String → Bool
is_named none s = false
is_named (some t) s = str_eq t s

abbrev pub threshold_from : ℕ → Option ℕ → Option ℕ → ℕ
threshold_from scale (some n) m = n * scale
threshold_from scale none (some m) = m * scale + 1
threshold_from scale none none = 0

module _ {V : Type 0} where
  abbrev pub pricing_threshold_tokens : ZenMuxPricingEntry V → ℕ
  pricing_threshold_tokens e = elim e.prompt_tokens [
    | none ↦ 0
    | some p ↦ threshold_from (if is_named p.unit_name "kTokens" then 1000 else 1) p.gte p.gt
  ]

  abbrev pub is_usd : String → ZenMuxPricingEntry V → Bool
  is_usd unit_name e =
      is_named e.unit_name unit_name && (is_named e.currency "USD" && is_some e.price)

  unfoldable pub matching_usd_entries :
      JsMap (List (ZenMuxPricingEntry V)) → String → String → List (ZenMuxPricingEntry V)
  matching_usd_entries pricings key unit_name =
      filter (is_usd unit_name) (get_or (JsMap.get pricings key) [])

  abbrev pub is_before : ZenMuxPricingEntry V → ZenMuxPricingEntry V → Bool
  is_before a b = leb (pricing_threshold_tokens a) (pricing_threshold_tokens b)

  unfoldable pub choose :
      ℕ → ZenMuxPricingEntry V → List (ZenMuxPricingEntry V) → ZenMuxPricingEntry V
  choose tokens chosen [] = chosen
  choose tokens chosen (e ∷ es) =
      choose tokens (if leb (pricing_threshold_tokens e) tokens then e else chosen) es

  abbrev pub choose_first : ℕ → List (ZenMuxPricingEntry V) → Option (ZenMuxPricingEntry V)
  choose_first tokens [] = none
  choose_first tokens (e ∷ es) = some (choose tokens e (e ∷ es))

  -- The entry whose price `pickPerMillionRate` returns.
  unfoldable pub pick_entry :
      JsMap (List (ZenMuxPricingEntry V)) → String → ℕ → Option (ZenMuxPricingEntry V)
  pick_entry pricings key tokens =
      choose_first tokens (sort is_before (matching_usd_entries pricings key "perMTokens"))

  abbrev pub price_of : Numbers V → Option (ZenMuxPricingEntry V) → V
  price_of num none = num.zero_cost
  price_of num (some e) = get_or e.price num.zero_cost

  unfoldable pub pick_per_million_rate :
      Numbers V → JsMap (List (ZenMuxPricingEntry V)) → String → ℕ → V
  pick_per_million_rate num pricings key tokens = price_of num (pick_entry pricings key tokens)

  abbrev pub head : List (ZenMuxPricingEntry V) → Option (ZenMuxPricingEntry V)
  head [] = none
  head (e ∷ es) = some e

  unfoldable pub pick_per_request_rate : Numbers V → JsMap (List (ZenMuxPricingEntry V)) → V
  pick_per_request_rate num pricings =
      price_of num (head (matching_usd_entries pricings "request" "perCount"))

  abbrev pub cost_of : Numbers V → ℕ → ℕ → Option (ZenMuxCatalogModel V) → Option V
  cost_of num tokens_in tokens_out none = none
  cost_of num tokens_in tokens_out (some m) = some (
      num.plus
        (num.plus (pick_per_request_rate num m.pricings) (
          num.times (num.millions tokens_in)
            (pick_per_million_rate num m.pricings "prompt" tokens_in)))
        (num.times (num.millions tokens_out)
          (pick_per_million_rate num m.pricings "completion" tokens_out)))

  unfoldable pub estimate_zen_mux_turn_cost_from_catalog :
      Numbers V → List (ZenMuxCatalogModel V) → String → ℕ → ℕ → Option V
  estimate_zen_mux_turn_cost_from_catalog num catalog model_id tokens_in tokens_out =
      cost_of num tokens_in tokens_out (find (λ m. is_named m.id model_id) catalog)
