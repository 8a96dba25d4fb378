-- ===== src/Ring/Tests.antt =====
-- Runs of include/ring.hpp on small rings with a small hash.
use paracel.Prelude.{
  ℕ, ◌+◌, ◌*◌, ◌%◌, ◌<◌, ◌≡◌, refl, ◌⊎◌, some, [], ◌∷◌, Str, text, length, nat_eq, arith,
}
use paracel.Prelude.Sort.{sort, insert, count}
use paracel.Prelude.Size.{size_mod}
use paracel.Ring.Defs.{
  Ring, dec, dec_fuel, replica_key, add_replica, add_loop, add_server, add_servers, ring,
  remove_server, get_server, ring_bsearch, bsearch_loop,
}
use paracel.Ring.Owner.{owner, least_from}
use paracel.Ring.Locate.{◌!◌}
use paracel.Ring.Bsearch.{ring_bsearch-owner}
use paracel.Ring.Valid.{IsValid, server_of, get_server-server_of}
use paracel.Ring.Add.{keys_from, add_server-IsValid, add_server_moves}
use paracel.Ring.Remove.{
  keys, IsAlone, remove_server-IsValid, hashring-remove-add, remove-add_collision,
}

abbrev name_of : Str → Str
name_of s = s

-- a hash below 100, on which "a:0" and "H:1" collide
abbrev hash : Str → ℕ
hash [] = 7
hash (c ∷ s) = (c * 13 + hash s * 5) % 100

abbrev empty_ring : Ring Str
empty_ring = record { replicas = 2; srv_hashring = []; srv_hashring_dct = [] }

empty_ring-IsValid : IsValid empty_ring
empty_ring-IsValid = record { sorted = tt; known = λ k h. absurd (omega (arith, h)) }

abbrev one_server : Ring Str
one_server = add_server name_of hash (text "a") empty_ring

one_server-IsValid : IsValid one_server
one_server-IsValid = add_server-IsValid name_of hash (text "a") empty_ring empty_ring-IsValid

abbrev two_servers : Ring Str
two_servers = add_server name_of hash (text "b") one_server

two_servers-IsValid : IsValid two_servers
two_servers-IsValid = add_server-IsValid name_of hash (text "b") one_server one_server-IsValid

keys_of_two : two_servers.srv_hashring ≡ 6 ∷ 19 ∷ 31 ∷ 44 ∷ []
unfolding add_server add_loop add_replica replica_key dec dec_fuel sort insert
keys_of_two = refl

-- the constructor on the two names
ring_of_two : (ring name_of hash (text "a" ∷ text "b" ∷ []) 2).srv_hashring ≡ 6 ∷ 19 ∷ 31 ∷ 44 ∷ []
unfolding add_server add_loop add_replica replica_key dec dec_fuel sort insert ring add_servers
ring_of_two = refl

digits : dec 31 ≡ text "31"
unfolding dec dec_fuel
digits = refl

-- a hash above every key wraps around
search_wraps : ring_bsearch (6 ∷ 19 ∷ 31 ∷ 44 ∷ []) 45 ≡ some 0
unfolding ring_bsearch bsearch_loop
search_wraps = refl

search_between : ring_bsearch (6 ∷ 19 ∷ 31 ∷ 44 ∷ []) 20 ≡ some 2
unfolding ring_bsearch bsearch_loop
search_between = refl

ring_bsearch-owner_example :
    (r : ℕ) × (ring_bsearch (6 ∷ 19 ∷ 31 ∷ []) 20 ≡ some r)
    × (r < 3)
    × (owner 20 (6 ∷ 19 ∷ 31 ∷ []) ≡ some ((6 ∷ 19 ∷ 31 ∷ []) ! r))
ring_bsearch-owner_example =
    ring_bsearch-owner (6 ∷ 19 ∷ 31 ∷ []) 20 (omega arith) (omega arith) (omega arith)

one_server_has_keys : 0 < length one_server.srv_hashring
unfolding add_server add_loop add_replica replica_key dec dec_fuel sort insert
one_server_has_keys = omega arith

two_servers_few : length two_servers.srv_hashring < size_mod
unfolding add_server add_loop add_replica replica_key dec dec_fuel sort insert
two_servers_few = omega arith

one_server_few : length one_server.srv_hashring < size_mod
unfolding add_server add_loop add_replica replica_key dec dec_fuel sort insert
one_server_few = omega arith

get_server-server_of_example :
    (name : Str) × (server_of 20 one_server ≡ some name)
    × (get_server [] 20 one_server ≡ some (name, one_server))
get_server-server_of_example =
    get_server-server_of [] 20 one_server one_server-IsValid one_server_has_keys one_server_few

add_server_moves_example :
    (new : Str) × (get_server [] 17 two_servers ≡ some (new, two_servers))
    × ((new ≡ text "b") ⊎ (get_server [] 17 one_server ≡ some (new, one_server)))
add_server_moves_example =
    add_server_moves name_of hash [] (text "b") 17 one_server one_server-IsValid one_server_has_keys
      two_servers_few

two_servers-IsAlone : IsAlone name_of hash (text "b") two_servers
unfolding add_server add_loop add_replica replica_key dec dec_fuel sort insert keys_from
two_servers-IsAlone k h = ground arith

remove_server-IsValid_example : IsValid (remove_server name_of hash (text "b") two_servers)
remove_server-IsValid_example =
    remove_server-IsValid name_of hash (text "b") two_servers two_servers-IsValid
      two_servers-IsAlone

owner_of_20 : owner 20 two_servers.srv_hashring ≡ some 31
unfolding add_server add_loop add_replica replica_key dec dec_fuel sort insert owner least_from
owner_of_20 = refl

not_of_b : count 31 (keys name_of hash (text "b") two_servers) ≡ 0
unfolding add_server add_loop add_replica replica_key dec dec_fuel sort insert keys_from
not_of_b = refl

hashring-remove-add_example :
    (remove_server name_of hash
      (text "H")
      (add_server name_of hash (text "H") one_server)).srv_hashring
    ≡ one_server.srv_hashring
hashring-remove-add_example =
    hashring-remove-add name_of hash (text "H") one_server one_server-IsValid

b_apart :
    (k : ℕ)
    → 0 < count k (keys name_of hash (text "b") one_server)
    → count k one_server.srv_hashring ≡ 0
unfolding add_server add_loop add_replica replica_key dec dec_fuel sort insert keys_from
b_apart k h = ground arith

shared_by_h : 0 < count 6 (keys name_of hash (text "H") one_server)
unfolding add_server add_loop add_replica replica_key dec dec_fuel sort insert keys_from
shared_by_h = omega arith

present_in_one : 0 < count 6 one_server.srv_hashring
unfolding add_server add_loop add_replica replica_key dec dec_fuel sort insert
present_in_one = omega arith

remove-add_collision_example :
    (r' : Ring Str) × (get_server [] 6
        (remove_server name_of hash (text "H") (add_server name_of hash (text "H") one_server))
      ≡ some ([], r'))
remove-add_collision_example =
    remove-add_collision name_of hash [] (text "H") 6 one_server one_server-IsValid shared_by_h
      present_in_one one_server_few
