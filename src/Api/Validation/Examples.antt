-- ===== src/Api/Validation/Examples.antt =====
-- A page of assets that is asked for: its size, and the names of owners, for
-- src/api/namespaces/validation.ts.
use atomicassets_api.Prelude.{
  true, false, String, str_eq, Option, none, some, List, [], ◌∷◌, if◌then◌else◌,
}
use atomicassets_api.Prelude.Int.{pos}
use atomicassets_api.Api.Validation.{finite, Value, int, undefined, one, FilterDefinition}

abbrev others : String → FilterDefinition → List String → Option (List Value)
others type f ss = none

abbrev limit : FilterDefinition
limit = record {
  type = "int";
  array = false;
  min = some (pos 1);
  max = some (pos 100);
  default = one (int (finite (pos 10)));
  allowed_values = none;
}

abbrev owners : FilterDefinition
owners = record {
  type = "name";
  array = true;
  min = none;
  max = none;
  default = one undefined;
  allowed_values = none;
}

abbrev filters : List (String × FilterDefinition)
filters = ("limit", limit) ∷ ("owner", owners) ∷ []

abbrev asked : String → Option String
asked k = if str_eq k "limit" then some "20" else some "alice,bob"

-- The owner Alice is no name of the chain.
abbrev asked_for_alice : String → Option String
asked_for_alice k = if str_eq k "limit" then some "20" else some "bob,Alice"
