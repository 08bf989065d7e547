-- ===== src/Routing/Price.antt =====
-- Prices of egress traffic (control-plane/util/get-bw-price.go, GetBandwidthPrice). The file is read
-- once; the model takes what it holds, `none` if it cannot be read or parsed.
use sky_flow.Base.{Bool, true, false, ◌||◌, ◌++◌, Option, none, some, if◌then◌else◌}
use sky_flow.Base.Text.{Text, codes, ◌≟◌}
use sky_flow.Base.Dict.{Dict, lookup}
use sky_flow.Base.Floats.{FloatOps}

abbrev pub arrow : Text → Text → Text
arrow a b = a ++ codes "->" ++ b

unfoldable pub is_supported : Text → Bool
is_supported provider =
    provider ≟ codes "gcp"
    || (provider ≟ codes "aws"
        || (provider ≟ codes "digitalocean"
            || (provider ≟ codes "azure" || provider ≟ codes "vultr")))

module _ {R : Type 0} where
  -- The first price that there is.
  unfoldable pub or_else : Option R → Option R → Option R
  or_else (some p) later = some p
  or_else none later = later

  -- The `switch`, for a provider that is supported.
  unfoldable pub price_in : Text → Text → Text → Dict R → Option R
  unfolding or_else
  price_in provider src dst prices =
      if provider ≟ codes "gcp"
      then or_else (lookup (arrow src dst) prices)
          (or_else (lookup (arrow (codes "Any") dst) prices) (lookup (codes "Any->Any") prices))
      else if provider ≟ codes "aws" || provider ≟ codes "digitalocean"
      then lookup (codes "Any->Any") prices
      else if provider ≟ codes "azure"
      then (if src ≟ dst
          then lookup (codes "SameContinent") prices
          else lookup (codes "DifferentContinent") prices)
      else or_else (lookup (arrow src (codes "Any")) prices) (lookup (codes "Any->Any") prices)

module _ {R : Type 0} (ops : FloatOps R) where
  price_or_high : Option R → R × Bool
  price_or_high none = (ops.ratio 2 10, false)
  price_or_high (some p) = (p, true)

  provider_price : Text → Text → Text → Option (Dict R) → R × Bool
  unfolding price_or_high price_in is_supported
  provider_price provider src dst none = (ops.ratio 2 10, false)
  provider_price provider src dst (some prices) =
      if is_supported provider
      then price_or_high (price_in provider src dst prices)
      else (ops.ratio 0 1, false)

  -- The price, and whether there is no error.
  unfoldable pub get_bandwidth_price : Option (Dict (Dict R)) → Text → Text → Text → R × Bool
  unfolding provider_price
  get_bandwidth_price none provider src dst = (ops.ratio 0 1, false)
  get_bandwidth_price (some providers) provider src dst =
      provider_price provider src dst (lookup provider providers)
