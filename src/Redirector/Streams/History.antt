-- ===== src/Redirector/Streams/History.antt =====
-- The stream table over a sequence of calls.
use cyberx_event_mgmt.Base.{
  ℕ, ◌≤◌, String, some, true, false, List, [], ◌∷◌, ◌++◌, ◌≡◌, arith, is_some, str_eq, eq_iff,
  contains, find, find-holds, find-all, Result-cases, ok, inl, inr,
}
use cyberx_event_mgmt.Redirector.Data.{Stream, has_id, is_truthy}
use cyberx_event_mgmt.Redirector.Ports.{
  sni_bridge_port_min, sni_bridge_port_max, used_ports, allocate_bridge_port,
}
use cyberx_event_mgmt.Redirector.Ports.Lowest.{allocate_bridge_port-used}
use cyberx_event_mgmt.Redirector.Streams.{
  StreamData, get_default, new_stream, bridge_port, create_stream, StreamPatch, patch_stream,
  update_stream, delete_stream,
}
use cyberx_event_mgmt.Redirector.Streams.Routing.{
  fits, FitsAll, IsRouted, create_stream-passed, update_stream-passed, patched-FitsAll,
  IsRouted-append, IsRouted-update, delete_stream-IsRouted, new-FitsAll,
}

-- A create or an update (of a stream of the table) that returns, or a delete.
pub data Step (streams : List Stream) : List Stream → Type 0 where
  creates :
      (i r : String) (d : StreamData) (after : List Stream)
      → create_stream streams i r d ≡ ok after
      → Step streams after
  updates :
      (s : Stream) (k : StreamPatch) (after : List Stream)
      → find (has_id s.id) streams ≡ some s
      → update_stream streams s k ≡ ok after
      → Step streams after
  deletes : (s : Stream) → Step streams (delete_stream streams s)

pub Step-IsRouted :
    {streams after : List Stream} → Step streams after → IsRouted streams → IsRouted after
Step-IsRouted {streams} (creates i r d after h) v =
    let (p, passed, _, e) = create_stream-passed streams after i r d h in
    rw e (IsRouted-append streams (new_stream i r d p) v (new-FitsAll streams i r d p passed))
Step-IsRouted {streams} (updates s k after found h) v =
    let (kept, moved, e) = update_stream-passed streams after s k h in
    rw e (
      IsRouted-update streams (patch_stream k s) v (
        patched-FitsAll streams s k kept moved
          (find-all (FitsAll streams) (has_id s.id) streams s found v)))
Step-IsRouted {streams} (deletes s) v = delete_stream-IsRouted streams s v

pub data Reach (start : List Stream) : List Stream → Type 0 where
  here : Reach start start
  next : {mid end : List Stream} → Reach start mid → Step mid end → Reach start end

Reach-IsRouted : {streams : List Stream} → Reach [] streams → IsRouted streams
Reach-IsRouted here = tt
Reach-IsRouted (next r st) = Step-IsRouted st (Reach-IsRouted r)

-- In every table that creates, updates and deletes lead to from the empty one, two streams with
-- different ids on one port of one redirector are both routed by SNI: no legacy stream shares its
-- port.
pub shared_port_routed :
    (streams : List Stream) (i j : String) (s t : Stream)
    → Reach [] streams
    → find (has_id i) streams ≡ some s
    → find (has_id j) streams ≡ some t
    → str_eq i j ≡ false
    → s.redirector_id ≡ t.redirector_id
    → s.listen_port ≡ t.listen_port
    → (is_some s.sni_hostname ≡ true) × (is_some t.sni_hostname ≡ true)
shared_port_routed streams i j s t r found_s found_t differ redirector port =
    let fit : fits s t ≡ true =
      find-all (λ u. fits s u ≡ true) (has_id j) streams t found_t
        (find-all (FitsAll streams) (has_id i) streams s found_s (Reach-IsRouted r)) in
    ground (
      arith,
      fit,
      eq_iff s.id i,
      eq_iff t.id j,
      eq_iff i j,
      eq_iff s.id t.id,
      eq_iff s.redirector_id t.redirector_id,
      find-holds (has_id i) streams found_s,
      find-holds (has_id j) streams found_t,
    )

-- A stream that is created with a hostname is the last row afterwards, it has TLS with a
-- certificate and a key, and its bridge port is in the range and held by no other stream of the
-- redirector.
pub create_stream_sni :
    (streams after : List Stream) (i r : String) (d : StreamData)
    → create_stream streams i r d ≡ ok after
    → is_truthy d.sni_hostname ≡ true
    → (p : ℕ) × (after ≡ streams ++ new_stream i r d (some p) ∷ [])
      × (get_default d.ssl_enabled false ≡ true)
      × (is_truthy d.ssl_cert_path ≡ true)
      × (is_truthy d.ssl_key_path ≡ true)
      × (sni_bridge_port_min ≤ p)
      × (p ≤ sni_bridge_port_max)
      × (contains (used_ports streams r) p ≡ false)
unfolding bridge_port
create_stream_sni streams after i r d h sni =
    let (q, _, bridged, last) = create_stream-passed streams after i r d h in
    elim (Result-cases (allocate_bridge_port streams r)) [
      | inr (e, failed) ↦ absurd (ground arith)
      | inl (p, allocated) ↦
          let (low, high, free, _) =
            allocate_bridge_port-used streams r sni_bridge_port_min {p = p} allocated
              (omega arith) in
          (p, ground arith, ground arith, ground arith, ground arith, low, high, free)
    ]
