-- ===== src/Tests/Channel.antt =====
-- Three nymphs that register at the same time: all are at the channel, and the last one is the first that
-- the loop takes.
use mathlib.Core.List.{Permᴰ}
use mathlib.Core.List.Permᴰ
use konk.Base.{ℤ, pos, ok, String, List, [], ◌∷◌, ◌++◌, refl, ◌≡◌, map, string_eq, ℕ_discrete}
use konk.Coordinator.NymphSet.Memory.{memory_bits, memory_bits-IsLawful, test, next_clear, set}
use konk.Coordinator.NymphSet.{add}
use konk.Coordinator.Control.{
  int_reply, register_nymph_args, new_control, handle, register_nymph_impl,
}
use konk.Coordinator.Channel.{
  Request, System, fresh_system, new_request, ask, receive, serve, answer, calls, receives, handles,
  answers, Run, here, later,
}
use konk.Coordinator.Channel.Laws.{Accounts, requests-Accounts, Log}
use konk.Coordinator.Control.Ends.{ends}
use konk.Coordinator.Channel.Progress.{IsQuiet, can_answer}
use konk.Coordinator.Channel.Invariant.{distinct_ids}
use konk.Coordinator.LocationDb.{Location, location_eq}
use konk.Base.Dict.{insert}
use konk.Tests.Coordinator.{network}

abbrev request_of : String → System memory_bits network → Request
request_of host = new_request memory_bits network (register_nymph_args host) (int_reply (pos 0))

abbrev start : System memory_bits network
start = fresh_system memory_bits network (new_control memory_bits network) []

abbrev asked : String → System memory_bits network → System memory_bits network
asked host s = ask memory_bits network (request_of host s) s

abbrev taken : Request → List Request → System memory_bits network → System memory_bits network
taken r others s = serve memory_bits network r (receive memory_bits network r others s)

abbrev given : Request → ℤ → System memory_bits network → System memory_bits network
given r id s = answer memory_bits network r [] (int_reply id) (ok tt) s

abbrev one : System memory_bits network
one = asked "z" start

abbrev two : System memory_bits network
two = asked "a" one

abbrev three : System memory_bits network
three = asked "b" two

abbrev z : Request
z = request_of "z" start

abbrev a : Request
a = request_of "a" one

abbrev b : Request
b = request_of "b" two

abbrev requests : List Request
requests = b ∷ a ∷ z ∷ []

-- The first one has its answer, and then the others are taken, too.
abbrev first_done : System memory_bits network
first_done = given b (pos 0) (taken b (a ∷ z ∷ []) three)

abbrev pub all_taken : System memory_bits network
all_taken = taken z [] (given a (pos 1) (taken a (z ∷ []) first_done))

all_ask : Run memory_bits network start requests three
unfolding ask
all_ask =
    later
      (later (later here (calls (register_nymph_args "z") (int_reply (pos 0))))
        (calls (register_nymph_args "a") (int_reply (pos 0))))
      (calls (register_nymph_args "b") (int_reply (pos 0)))

to_first : Run memory_bits network start requests first_done
unfolding ask receive serve answer handle register_nymph_impl add insert set next_clear test
    ℕ_discrete location_eq string_eq ends
to_first =
    later
      (later (later all_ask (receives b (a ∷ z ∷ []) refl (Permᴰ.refl requests)))
        (handles b refl refl))
      (answers b b [] (int_reply (pos 0)) (ok tt) refl (Permᴰ.refl (b ∷ [])) refl)

on_to_all :
    {s : System memory_bits network} {rs : List Request}
    → Run memory_bits network s rs first_done
    → Run memory_bits network s rs all_taken
unfolding ask receive serve answer handle register_nymph_impl add insert set next_clear test
    ℕ_discrete location_eq string_eq ends
on_to_all run =
    later
      (later
        (later
          (later (later run (receives a (z ∷ []) refl (Permᴰ.refl (a ∷ z ∷ []))))
            (handles a refl refl))
          (answers a a [] (int_reply (pos 1)) (ok tt) refl (Permᴰ.refl (a ∷ [])) refl))
        (receives z [] refl (Permᴰ.refl (z ∷ []))))
      (handles z refl refl)

pub to_all : Run memory_bits network start requests all_taken
to_all = on_to_all to_first

requests-Accounts_example :
    let c = new_control memory_bits network in
    (log new : Log memory_bits network) × Accounts memory_bits network c requests log first_done
    × Accounts memory_bits network c requests (new ++ log) all_taken
requests-Accounts_example =
    requests-Accounts memory_bits network (new_control memory_bits network) to_first
      (on_to_all here)

can_answer_example :
    (t : System memory_bits network) × Run memory_bits network first_done [] t
    × IsQuiet memory_bits network t
    × Permᴰ (map (λ a. a.request) t.returned) requests
can_answer_example = can_answer memory_bits network ((λ host w. refl), (λ host c w. refl)) to_first

abbrev at_a : Location
at_a = record { hostname = "a" }

distinct_ids_example : at_a ≡ at_a
unfolding ask receive serve answer handle register_nymph_impl add insert set next_clear test
    ℕ_discrete location_eq string_eq
distinct_ids_example =
    distinct_ids memory_bits memory_bits-IsLawful network to_all at_a at_a 1 refl refl
