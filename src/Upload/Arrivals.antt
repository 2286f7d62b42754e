-- ===== src/Upload/Arrivals.antt =====
-- The frames of an upload as they arrive, in any order: marlinspike-agent/agent/client.py against
-- marlinspike/fleet/gateway/server.py.
use native.Mathlib.Nat.{mul-le-mul_right, lt-div-mul-add}
use net_discover.Prelude.{
  ℕ, ◌+◌, ◌-◌, ◌*◌, ◌/◌, ◌≤◌, ◌<◌, max, String, List, [], ◌∷◌, ◌++◌, none, some, true, ◌≡◌, ◌≢◌,
  refl, arith, length, get_elem?, ◌||◌, All,
}
use net_discover.Fleet.Agents.{Tables}
use net_discover.Upload.Disk.{FilePath, file_of}
use net_discover.Upload.Paths.{begin_pcap_upload}
use net_discover.Upload.Transfers.{Connection, ChunkParams, get_transfer, has_index}
use net_discover.Upload.Sender.{total_chunks_of, chunks_of_file, get_elem?-read_chunks}
use net_discover.Upload.Events.{Gateway, GatewayEvent, chunk, limit, handle_event, handle_events}
use net_discover.Upload.Progress.{good_disk, Uploading, chunk_at, next-Uploading, first-Uploading}

-- The frames of the list, in the order of their indices: some may come twice, or not at all.
unfoldable pub delivered : Tables → List ℕ → List ChunkParams → List GatewayEvent
delivered t [] ps = []
delivered t (i ∷ is) ps =
    let rest = delivered t is ps in
    elim (get_elem? ps i) [ none ↦ rest | some p ↦ chunk t good_disk (some p) ∷ rest ]

pub handle_events-append :
    (g : Gateway) (es fs : List GatewayEvent) (c : Connection)
    → handle_events g (es ++ fs) c ≡ handle_events g fs (handle_events g es c)
unfolding handle_events
handle_events-append g [] fs c = refl
handle_events-append g (e ∷ es) fs c = handle_events-append g es fs (handle_event g e c)

-- The order of arrival, the last first, in front of what had arrived.
abbrev pub onto : List ℕ → List ℕ → List ℕ
onto [] arrived = arrived
onto (i ∷ is) arrived = onto is (i ∷ arrived)

pub has_index-onto :
    (j : ℕ) (is arrived : List ℕ)
    → (has_index j is || has_index j arrived) ≡ true
    → has_index j (onto is arrived) ≡ true
unfolding has_index
has_index-onto j [] arrived h = h
has_index-onto j (i ∷ is) arrived h = has_index-onto j is (i ∷ arrived) (ground (arith, h))

pub onto-has_index :
    (j : ℕ) (is arrived : List ℕ)
    → has_index j (onto is arrived) ≡ true
    → (has_index j is || has_index j arrived) ≡ true
unfolding has_index
onto-has_index j [] arrived h = h
onto-has_index j (i ∷ is) arrived h = ground (arith, h, onto-has_index j is (i ∷ arrived))

pub total-enough : (size n : ℕ) → 0 < size → n ≤ total_chunks_of size n * size
unfolding total_chunks_of
total-enough size n positive =
    let t = (n + (size - 1)) / size in
    let a : n + (size - 1) < t * size + size = lt-div-mul-add positive in
    let b : t * size ≤ max 1 t * size = mul-le-mul_right size (omega arith) in
    omega (arith, positive, a, b)

pub total-positive : (size n : ℕ) → 0 < total_chunks_of size n
unfolding total_chunks_of
total-positive size n = omega arith

module _ (g : Gateway) (session filename : String) (file : List ℕ) (partial final : FilePath) where
  abbrev pub total : ℕ
  total = total_chunks_of g.chunk_size (length file)

  abbrev pub InProgress : Connection → List ℕ → Connection → Type 0
  InProgress before arrived c =
      Uploading g session filename file total partial final before arrived c

  abbrev pub arrivals : Tables → List ℕ → List GatewayEvent
  arrivals t order = delivered t order (chunks_of_file g.chunk_size session filename file)

  abbrev pub sent_chunk : ℕ → ChunkParams
  sent_chunk i = chunk_at g session filename file total partial final i

  get_elem?-chunks_of_file :
      (i : ℕ)
      → i < total
      → get_elem? (chunks_of_file g.chunk_size session filename file) i ≡ some (sent_chunk i)
  unfolding chunks_of_file
  get_elem?-chunks_of_file i below =
      get_elem?-read_chunks g.chunk_size session filename total 0 total i i file below (omega arith)

  delivered-next :
      (t : Tables) (i : ℕ) (is : List ℕ)
      → i < total
      → arrivals t (i ∷ is) ≡ chunk t good_disk (some (sent_chunk i)) ∷ arrivals t is
  unfolding delivered
  delivered-next t i is below = rw (delivered, get_elem?-chunks_of_file i below) refl

  module _ (before : Connection) (t : Tables) (fits : total ≤ limit g) where
    arrivals-InProgress :
        (is arrived : List ℕ) (c : Connection)
        → All (λ i. i < total) is
        → InProgress before arrived c
        → InProgress before (onto is arrived) (handle_events g (arrivals t is) c)
    unfolding delivered handle_events handle_event
    arrivals-InProgress [] arrived c below u = u
    arrivals-InProgress (i ∷ is) arrived c below u = rw (delivered-next t i is below.0) (
        arrivals-InProgress is (i ∷ arrived) _ below.1 (
          next-Uploading g session filename file total partial final before t i arrived c fits
            below.0 u))

    pub first-InProgress :
        (is : List ℕ)
        → is ≢ []
        → begin_pcap_upload g.uploads session filename g.agent_uuid t ≡ some (partial, final)
        → get_transfer filename before.pcap_transfers ≡ none
        → file_of partial before.disk ≡ none
        → All (λ i. i < total) is
        → InProgress before (onto is []) (handle_events g (arrivals t is) before)
    unfolding handle_events handle_event
    first-InProgress [] some_chunk begun fresh unnamed below = absurd (some_chunk refl)
    first-InProgress (i ∷ is) some_chunk begun fresh unnamed below =
        rw (delivered-next t i is below.0) (
          arrivals-InProgress is (i ∷ []) _ below.1 (
            first-Uploading g session filename file total partial final before t i begun fresh
              unnamed fits below.0))
