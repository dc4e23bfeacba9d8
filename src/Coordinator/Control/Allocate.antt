-- ===== src/Coordinator/Control/Allocate.antt =====
-- Where a container that is not yet registered is placed.
use konk.Base.Perms.{All-Perm, length-Perm}
use mathlib.Core.List.Permᴰ
use konk.Base.{
  length, sym, Error, ap, ◌∙◌, subst, ℕ, ◌≤◌, ◌<◌, ◌≡◌, refl, ◌⊎◌, inl, inr, Option, none, some, [],
  ◌∷◌, arith, All, ok, err, errorf, ltb, ◌==◌, String, Fallible, Option-cases, Bool-cases,
  if◌then◌else◌, nat_beq,
}
use konk.Base.Dict.{Dict, lookup, insert}
use konk.Container.Types.{Rank}
use konk.Nymph.Client.{Transport}
use konk.Coordinator.LocationDb.{
  Location, location_eq, LocationInfo, LocationDb, get, count_location, stat_loop, locations_stat,
}
use konk.Coordinator.NymphSet.Bits.{BitSet}
use konk.Coordinator.Control.{
  Control, Reply, string_reply, allocate_host, choose, min_loop, max_int_32,
}

abbrev Stat : Type 0
Stat = Dict Location LocationInfo

abbrev nowhere : Location
nowhere = record { hostname = "" }

-- The report has an entry for `loc` that counts `n`.
abbrev pub Has : Stat → Location → ℕ → Type 0
Has [] loc n = ⊥
Has ((l, i) ∷ m) loc n = ((l ≡ loc) × (i.container_count ≡ n)) ⊎ Has m loc n

min_loop_least :
    (m : Stat) (best : Location) (count : ℕ)
    → let (l, n) = min_loop m best count in
      (n ≤ count)
      × All (λ e. n ≤ e.1.container_count) m
      × (((l ≡ best) × (n ≡ count)) ⊎ (Has m l n × (n < count)))
unfolding min_loop
min_loop_least [] best count = (omega arith, tt, inl (refl, refl))
min_loop_least ((l, i) ∷ m) best count =
    let t = ltb i.container_count count in
    ground
      (arith, min_loop_least m (if t then l else best) (if t then i.container_count else count))

-- The scan over a report offers the host of a location that the report says has the fewest
-- containers, and fewer than 2^31 - 1; or it fails, and every location has at least that many.
pub choose_least :
    (m : Stat)
    → ((l : Location) × (n : ℕ) × (choose m ≡ ok l.hostname)
        × Has m l n
        × (n < max_int_32)
        × All (λ e. n ≤ e.1.container_count) m)
      ⊎ ((choose m ≡ err (errorf "No location has been found"))
          × All (λ e. max_int_32 ≤ e.1.container_count) m)
unfolding choose
choose_least m =
    let (below, all, from) = min_loop_least m nowhere max_int_32 in
    let (l, n) = min_loop m nowhere max_int_32 in
    elim (Bool-cases (nat_beq n max_int_32)) [
      | inl e ↦ inr (
        ground arith,
        subst (λ k. All (λ (x : Location × LocationInfo). k ≤ x.1.container_count) m) (ground arith)
            all,
      )
      | inr e ↦ inl (l, n, ground arith, ground arith, ground arith, all)
    ]

-- The database has a container at the location.
abbrev pub On : Dict Rank Location → Location → Type 0
On [] loc = ⊥
On ((_, l) ∷ db) loc = (l ≡ loc) ⊎ On db loc

abbrev one : LocationInfo
one = record { container_count = 1 }

module _ (P : Location → Type 0) where
  -- Every entry counts 1, and is of a location for which `P` holds.
  abbrev Ones : Stat → Type 0
  Ones = All (λ e. P e.0 × (e.1.container_count ≡ 1))

  insert-Ones : (l : Location) (m : Stat) → P l → Ones m → Ones (insert l one m)
  unfolding insert
  insert-Ones l [] p h = ((p, refl), tt)
  insert-Ones l ((k, i) ∷ m) p h = elim (Bool-cases (l == k)) [
    | inl e ↦ rw (e, insert) ((h.0.0, refl), h.1)
    | inr e ↦ rw (e, insert) (h.0, insert-Ones l m p h.1)
  ]

  count_location-Ones : (l : Location) (m : Stat) → P l → Ones m → Ones (count_location l m)
  count_location-Ones l m p h = elim (Option-cases (lookup l m)) [
    | inl e ↦ rw (e, count_location) (insert-Ones l m p h)
    | inr (i, e) ↦ rw (e, count_location) h
  ]

  stat_loop-Ones :
      (db : Dict Rank Location) (m : Stat)
      → ((l : Location) → On db l → P l)
      → Ones m
      → Ones (stat_loop db m)
  unfolding stat_loop
  stat_loop-Ones [] m p h = h
  stat_loop-Ones ((r, l) ∷ db) m p h =
      stat_loop-Ones db (count_location l m) (λ k on. p k (inr on))
        (count_location-Ones l m (p l (inl refl)) h)

  Has-Ones : (m : Stat) (l : Location) (n : ℕ) → Has m l n → Ones m → P l
  Has-Ones [] l n h o = absurd h
  Has-Ones ((k, i) ∷ m) l n (inl (e, _)) ((p, _), o) = subst P e p
  Has-Ones ((k, i) ∷ m) l n (inr h) (_, o) = Has-Ones m l n h o

  -- No count of 1 is as large as the first bound of the scan.
  small : (m : Stat) → Ones m → All (λ e. max_int_32 ≤ e.1.container_count) m → length m ≡ 0
  small [] o h = refl
  small ((k, i) ∷ m) ((_, n), o) (h, hs) = absurd (omega (arith, n, h))

count_location_head :
    (k l : Location) (m : Stat)
    → count_location k ((l, one) ∷ m) ≡ (l, one) ∷ (if k == l then m else count_location k m)
unfolding insert
count_location_head k l m = ground arith

-- The first entry of the report stays first.
stat_loop_head :
    (db : Dict Rank Location) (l : Location) (m : Stat)
    → (m' : Stat) × (stat_loop db ((l, one) ∷ m) ≡ (l, one) ∷ m')
unfolding stat_loop
stat_loop_head [] l m = (m, refl)
stat_loop_head ((r, k) ∷ db) l m =
    let (m', e) = stat_loop_head db l (if k == l then m else count_location k m) in
    (m', ap (stat_loop db) (count_location_head k l m) ∙ e)

-- The report of a database is empty only if the database is.
empty_stat : (l : LocationDb) → length (locations_stat l) ≡ 0 → l.db ≡ []
empty_stat l = go l.db
  where
    go : (db : Dict Rank Location) → length (locations_stat (record { db = db })) ≡ 0 → db ≡ []
    go [] = λ e. refl
    go ((r, k) ∷ db) =
        let (m, f) = stat_loop_head db k [] in
        unfold locations_stat stat_loop insert in rw f (λ e. absurd (omega (arith, e)))

-- The reply and the error for a container, by its record and the database; a failed request leaves the
-- reply as it was.
abbrev pub Allocated : String → Option Location → Dict Rank Location → Reply × Fallible → Type 0
Allocated old (some l) db (reply, error) = (reply ≡ string_reply l.hostname) × (error ≡ ok tt)
Allocated old none db (reply, error) =
    ((l : Location) × On db l × (reply ≡ string_reply l.hostname) × (error ≡ ok tt))
    ⊎ ((e : Error) × (db ≡ []) × (reply ≡ string_reply old) × (error ≡ err e))

module _ (B : BitSet) (T : Transport) where
  -- A registered container gets its own host. Any other gets the host of one of the registered
  -- containers, in whatever order the range visits the report, and an error if no container is
  -- registered at all. Nothing but the reply changes.
  pub allocate_host_lem :
      (c : Control B) (w : T.World) (rank : Rank) (old : String)
      → let o = allocate_host B T c w rank (string_reply old) in
        (o.control ≡ c)
        × (o.world ≡ w)
        × Allocated old (get c.location_db rank) c.location_db.db (o.reply, o.error)
  unfolding allocate_host
  allocate_host_lem c w rank old = elim (Option-cases (get c.location_db rank)) [
    | inr (l, e) ↦ rw (e, allocate_host) (refl, refl, (refl, refl))
    | inl e ↦
        let report = locations_stat c.location_db in
        let m = T.range w report in
        let P = On c.location_db.db in
        let ones : Ones P report =
          unfold locations_stat in stat_loop-Ones P c.location_db.db [] (λ l on. on) tt in
        let all : Ones P m =
          All-Perm (λ (x : Location × LocationInfo). P x.0 × (x.1.container_count ≡ 1))
            (Permᴰ.symm (T.range-Perm w report)) ones in
        elim (choose_least m) [
          | inl (l, n, f, has, _, _) ↦
              rw (e, f, allocate_host) (refl, refl, inl (l, Has-Ones P m l n has all, refl, refl))
          | inr (f, big) ↦
              let none_there =
                empty_stat c.location_db
                  (sym (length-Perm (T.range-Perm w report)) ∙ small P m all big) in
              rw (e, f, allocate_host) (refl, refl, inr (_, none_there, refl, refl))
        ]
  ]
