-- ===== src/Routing/Shortest/Tests.antt =====
-- The shortest path in a graph of three nodes. Costs are integers that count hundredths.
use sky_flow.Base.{ℕ, ◌≡◌, ◌≢◌, refl, false, List, [], ◌∷◌, arith}
use sky_flow.Base.Int.{ℤ, pos, ◌+ℤ◌, ◌*ℤ◌}
use sky_flow.Base.Text.{Text, codes, ◌≟◌}
use sky_flow.Base.Dict.{lookup, insert}
use sky_flow.Base.Floats.{hundredths}
use sky_flow.Routing.{Edge}
use sky_flow.Routing.Shortest.{found, unreachable, out_of_fuel, dijkstra}
use sky_flow.Routing.Shortest.Frontier.{CostLaws}
use sky_flow.Routing.Shortest.Rounds.{Correct}
use sky_flow.Routing.Shortest.Ends.{dijkstra-Correct}

pub hundredths-CostLaws : CostLaws hundredths
unfolding ◌+ℤ◌ ◌*ℤ◌
hundredths-CostLaws = record {
  irrefl = λ a. ground arith;
  asym = λ a b h. ground arith;
  le_trans = λ a b c h k. ground arith;
  lt_le_trans = λ a b c h k. ground arith;
  le_lt_trans = λ a b c h k. ground arith;
  add_mono = λ a b w h. ground arith;
  add_grows = λ a w h. ground arith;
}

abbrev edge : Text → Text → ℕ → Edge ℤ
edge from to weight = record {
  source_ip = from;
  destination_ip = to;
  source_provider = [];
  source_continent = [];
  edge_weight = pos weight;
}

abbrev a : Text
a = codes "a"

abbrev b : Text
b = codes "b"

abbrev c : Text
c = codes "c"

-- The direct edge costs more than the way round.
abbrev triangle : List (Edge ℤ)
triangle = edge a c 9 ∷ edge a b 2 ∷ edge b c 3 ∷ []

abbrev far : ℤ
far = pos 1_000_000

way_round : dijkstra hundredths far triangle a c ≡ found (a ∷ b ∷ c ∷ []) (pos 6000)
unfolding dijkstra lookup insert ◌≟◌ ◌+ℤ◌ ◌*ℤ◌
way_round = refl

no_way : dijkstra hundredths far triangle c a ≡ unreachable
unfolding dijkstra lookup insert ◌≟◌ ◌+ℤ◌ ◌*ℤ◌
no_way = refl

differ : (a ≟ c) ≡ false
unfolding ◌≟◌
differ = refl

dijkstra-Correct_example :
    (dijkstra hundredths far triangle a c ≢ out_of_fuel)
    × Correct hundredths hundredths-CostLaws far triangle a c (dijkstra hundredths far triangle a c)
dijkstra-Correct_example =
    dijkstra-Correct hundredths hundredths-CostLaws far triangle c a (refl, (refl, (refl, tt)))
      differ
