-- ===== src/Redirector/Streams/Routing.antt =====
-- A port of a redirector hosts one legacy stream or SNI streams only.
use cyberx_event_mgmt.Base.{
  if◌then◌else◌, ℕ, String, Option, none, some, Bool, true, false, not, ◌&&◌, ◌||◌, List, [], ◌∷◌,
  ◌++◌, ◌≡◌, inl, inr, arith, is_some, ◌==◌, str_eq, eq_iff, eq_refl, Bool-cases, All, All-append,
  All-map, All-zip, All-update_to, All-delete, select, update, delete, Result-cases, ok,
}
use cyberx_event_mgmt.Redirector.Data.{Stream, has_id, opt_str_eq}
use cyberx_event_mgmt.Redirector.Streams.{
  is_at, any_stream, is_legacy, is_sni, check_sni_collision, StreamData, get_default, new_stream,
  bridge_port, insert, create_stream, is_moved, check_at, port_after, StreamPatch, patch_stream,
  check_toggle, check_move, commit_update, update_stream, delete_stream,
}

-- The streams of one port of one redirector.
abbrev share_port : Stream → Stream → Bool
share_port s t = str_eq s.redirector_id t.redirector_id && s.listen_port == t.listen_port

-- The same stream, on different ports, or both routed by SNI.
abbrev pub fits : Stream → Stream → Bool
fits s t = str_eq s.id t.id || (not (share_port s t) || is_sni s && is_sni t)

abbrev pub FitsAll : List Stream → Stream → Type 0
FitsAll streams s = All (λ t. fits s t ≡ true) streams

-- Any two streams of the table fit.
abbrev pub IsRouted : List Stream → Type 0
IsRouted streams = All (FitsAll streams) streams

fits-sym : (s t : Stream) → fits s t ≡ true → fits t s ≡ true
fits-sym s t h = ground (
  arith,
  eq_iff s.id t.id,
  eq_iff t.id s.id,
  eq_iff s.redirector_id t.redirector_id,
  eq_iff t.redirector_id s.redirector_id,
)

fits_self : (s : Stream) → fits s s ≡ true
fits_self s = ground (arith, eq_refl s.id)

any_stream-false :
    (p q : Stream → Bool) (ss : List Stream)
    → any_stream p (select q ss) ≡ false
    → All (λ s. q s ≡ true → p s ≡ false) ss
unfolding any_stream select
any_stream-false p q [] h = tt
any_stream-false p q (s ∷ ss) h = ((λ e. ground arith), any_stream-false p q ss (ground arith))

-- What the collision check establishes.
check_sni_collision-passed :
    (streams : List Stream) (r : String) (port : ℕ) (sni excluded : Option String)
    → check_sni_collision streams r port sni excluded ≡ ok tt
    → All (λ t. is_at r port excluded t ≡ true → (is_some sni && is_sni t) ≡ true) streams
unfolding check_sni_collision
check_sni_collision-passed streams r port none excluded h =
    let at = is_at r port excluded in
    All-map (λ t. (at t ≡ true → is_sni t ≡ false) × (at t ≡ true → is_legacy t ≡ false))
      (λ t. at t ≡ true → (false && is_sni t) ≡ true) streams
      (λ t (a, b) e. let x = a e in let y = b e in ground arith)
      (All-zip _ _ streams (any_stream-false is_sni at streams (ground arith))
        (any_stream-false is_legacy at streams (ground arith)))
check_sni_collision-passed streams r port (some sni) excluded h =
    let at = is_at r port excluded in
    All-map (λ t. at t ≡ true → is_legacy t ≡ false) (λ t. at t ≡ true → (true && is_sni t) ≡ true)
      streams (λ t a e. let x = a e in ground arith)
      (any_stream-false is_legacy at streams (ground arith))

pub IsRouted-append :
    (streams : List Stream) (s : Stream)
    → IsRouted streams
    → FitsAll streams s
    → IsRouted (streams ++ s ∷ [])
IsRouted-append streams s r f =
    All-append (FitsAll (streams ++ s ∷ [])) streams (s ∷ [])
      (All-map (λ t. FitsAll streams t × (fits s t ≡ true)) (FitsAll (streams ++ s ∷ [])) streams
        (λ t (a, b). All-append (λ u. fits t u ≡ true) streams (s ∷ []) a (fits-sym s t b, tt))
        (All-zip (FitsAll streams) (λ t. fits s t ≡ true) streams r f))
      (All-append (λ u. fits s u ≡ true) streams (s ∷ []) f (fits_self s, tt), tt)

pub IsRouted-update :
    (streams : List Stream) (s : Stream)
    → IsRouted streams
    → FitsAll streams s
    → IsRouted (update (has_id s.id) (λ _. s) streams)
IsRouted-update streams s r f =
    All-update_to (λ t. FitsAll streams t × (fits s t ≡ true))
      (FitsAll (update (has_id s.id) (λ _. s) streams)) (has_id s.id) (λ _. s) streams
      (λ t _ _. with_new s f (fits_self s)) (λ t _ (a, b). with_new t a (fits-sym s t b))
      (All-zip (FitsAll streams) (λ t. fits s t ≡ true) streams r f)
  where
    with_new :
        (t : Stream)
        → FitsAll streams t
        → fits t s ≡ true
        → FitsAll (update (has_id s.id) (λ _. s) streams) t
    with_new t a b =
        All-update_to (λ u. fits t u ≡ true) (λ u. fits t u ≡ true) (has_id s.id) (λ _. s) streams
          (λ _ _ _. b) (λ _ _ h. h) a

pub delete_stream-IsRouted :
    (streams : List Stream) (s : Stream) → IsRouted streams → IsRouted (delete_stream streams s)
unfolding delete_stream
delete_stream-IsRouted streams s r =
    All-delete (FitsAll (delete (has_id s.id) streams)) (has_id s.id) streams (
      All-map (FitsAll streams) (FitsAll (delete (has_id s.id) streams)) streams
        (λ t a. All-delete (λ u. fits t u ≡ true) (has_id s.id) streams a) r)

insert-ok :
    (streams : List Stream) (s : Stream) (streams' : List Stream)
    → insert streams s ≡ ok streams'
    → streams' ≡ streams ++ s ∷ []
unfolding insert
insert-ok streams s streams' h = ground arith

commit_update-ok :
    (streams : List Stream) (s : Stream) (streams' : List Stream)
    → commit_update streams s ≡ ok streams'
    → streams' ≡ update (has_id s.id) (λ _. s) streams
unfolding commit_update
commit_update-ok streams s streams' h = ground arith

-- A call that returns has passed its checks.
pub create_stream-passed :
    (streams streams' : List Stream) (i r : String) (d : StreamData)
    → create_stream streams i r d ≡ ok streams'
    → (p : Option ℕ) × (check_sni_collision streams r d.listen_port d.sni_hostname none ≡ ok tt)
      × (bridge_port streams r d ≡ ok p)
      × (streams' ≡ streams ++ new_stream i r d p ∷ [])
unfolding create_stream
create_stream-passed streams streams' i r d h =
    elim (Result-cases (check_sni_collision streams r d.listen_port d.sni_hostname none)) [
      | inr (e, failed) ↦ absurd (cc (rw failed at h))
      | inl (unit, passed) ↦ elim (Result-cases (bridge_port streams r d)) [
        | inr (e, failed) ↦ absurd (cc (rw (passed, failed) at h))
        | inl (p, bridged) ↦
            let inserted : insert streams (new_stream i r d p) ≡ ok streams' =
              rw (passed, bridged) at h in
            (p, passed, bridged, insert-ok streams (new_stream i r d p) streams' inserted)
      ]
    ]

pub new-FitsAll :
    (streams : List Stream) (i r : String) (d : StreamData) (p : Option ℕ)
    → check_sni_collision streams r d.listen_port d.sni_hostname none ≡ ok tt
    → FitsAll streams (new_stream i r d p)
new-FitsAll streams i r d p h =
    All-map (λ t. is_at r d.listen_port none t ≡ true → (is_some d.sni_hostname && is_sni t) ≡ true)
      (λ t. fits (new_stream i r d p) t ≡ true) streams
      (λ t a. ground (arith, a, eq_iff r t.redirector_id, eq_iff t.redirector_id r))
      (check_sni_collision-passed streams r d.listen_port d.sni_hostname none h)

pub update_stream-passed :
    (streams streams' : List Stream) (s : Stream) (k : StreamPatch)
    → update_stream streams s k ≡ ok streams'
    → (check_toggle k s ≡ ok tt)
      × (check_move streams k s ≡ ok tt)
      × (streams' ≡ update (has_id s.id) (λ _. patch_stream k s) streams)
unfolding update_stream
update_stream-passed streams streams' s k h = elim (Result-cases (check_toggle k s)) [
  | inr (e, failed) ↦ absurd (cc (rw failed at h))
  | inl (unit, kept) ↦ elim (Result-cases (check_move streams k s)) [
    | inr (e, failed) ↦ absurd (cc (rw (kept, failed) at h))
    | inl (unit', moved) ↦
        let committed : commit_update streams (patch_stream k s) ≡ ok streams' =
          rw (kept, moved) at h in
        (kept, moved, commit_update-ok streams (patch_stream k s) streams' committed)
  ]
]

-- An update keeps the polarity of the stream.
check_toggle-kept :
    (k : StreamPatch) (s : Stream)
    → check_toggle k s ≡ ok tt
    → is_some (get_default k.sni_hostname s.sni_hostname) ≡ is_some s.sni_hostname
unfolding check_toggle
check_toggle-kept k s h = ground arith

-- On its port a stream fits as long as it keeps its polarity.
renamed-FitsAll :
    (streams : List Stream) (s : Stream) (sni : Option String)
    → is_some sni ≡ is_some s.sni_hostname
    → FitsAll streams s
    → FitsAll streams (record s { sni_hostname = sni })
renamed-FitsAll streams s sni kept f =
    All-map (λ t. fits s t ≡ true) (λ t. fits (record s { sni_hostname = sni }) t ≡ true) streams
      (λ t a. ground (arith, a, kept)) f

moved-FitsAll :
    (streams : List Stream) (s : Stream) (sni : Option String) (o : Option (Option ℕ))
    → is_some sni ≡ is_some s.sni_hostname
    → (if is_moved o s.listen_port || not (opt_str_eq sni s.sni_hostname)
        then check_at streams s sni o
        else ok tt)
      ≡ ok tt
    → FitsAll streams s
    → FitsAll streams (record s { listen_port = port_after o s.listen_port; sni_hostname = sni })
unfolding check_at
moved-FitsAll streams s sni none kept moved f = renamed-FitsAll streams s sni kept f
moved-FitsAll streams s sni (some none) kept moved f = renamed-FitsAll streams s sni kept f
moved-FitsAll streams s sni (some (some port)) kept moved f =
    elim (Bool-cases (not (port == s.listen_port) || not (opt_str_eq sni s.sni_hostname))) [
      | inl moves ↦
          All-map
            (λ t.
              is_at s.redirector_id port (some s.id) t ≡ true → (is_some sni && is_sni t) ≡ true)
            (λ t. fits (record s { listen_port = port; sni_hostname = sni }) t ≡ true) streams
            (λ t a. ground (
              arith,
              a,
              eq_iff s.id t.id,
              eq_iff t.id s.id,
              eq_iff s.redirector_id t.redirector_id,
              eq_iff t.redirector_id s.redirector_id,
            ))
            (check_sni_collision-passed streams s.redirector_id port sni (some s.id)
              (rw moves at moved))
      | inr stays ↦
          All-map (λ t. fits s t ≡ true)
            (λ t. fits (record s { listen_port = port; sni_hostname = sni }) t ≡ true) streams
            (λ t a. ground (arith, a, stays, kept)) f
    ]

pub patched-FitsAll :
    (streams : List Stream) (s : Stream) (k : StreamPatch)
    → check_toggle k s ≡ ok tt
    → check_move streams k s ≡ ok tt
    → FitsAll streams s
    → FitsAll streams (patch_stream k s)
unfolding check_move
patched-FitsAll streams s k kept moved f =
    moved-FitsAll streams s (get_default k.sni_hostname s.sni_hostname) k.listen_port
      (check_toggle-kept k s kept) moved f
