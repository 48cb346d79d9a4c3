-- ===== src/Aliases/Tests.antt =====
-- Topic aliases of rmqtt/src/broker/types.rs on short texts.
use rmqtt.Common.{◌≡◌, refl, none, some, List, [], ◌∷◌, map, arith}
use rmqtt.Aliases.{new_server, new_client, set_and_get}
use rmqtt.Aliases.Recover.{received, received_lem, new-Agree}
use Prim.Native.String.{String}

abbrev sent_topics : List String
sent_topics = "a/b" ∷ "c" ∷ "a/b" ∷ "d" ∷ []

received_example : received sent_topics (new_server 2) (new_client 3) ≡ map some sent_topics
received_example =
    received_lem sent_topics (new_server 2) (new_client 3) (refl, (refl, (refl, (refl, tt))))
      (new-Agree 2 3 (omega arith) (omega arith))

unknown_alias : (set_and_get (some 4) "" (new_client 3)).0 ≡ none
unfolding set_and_get
unknown_alias = refl

too_many_aliases : (set_and_get (some 4) "a" (new_client 0)).0 ≡ none
unfolding set_and_get
too_many_aliases = refl
