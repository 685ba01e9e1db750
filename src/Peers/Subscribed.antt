-- ===== src/Peers/Subscribed.antt =====
-- The subscriptions of nodes (nyumt-node/src/master/req_resp.rs): who is under which configuration.
use pfe_development_of_a_mon.Prelude.{
  none, ℕ, ◌≡◌, refl, true, false, not, Bool-cases, List, [], ◌∷◌, ◌++◌, any, retain, Text, same,
  same_iff, same_refl, if◌then◌else◌, ok, inl, inr, arith,
}
use pfe_development_of_a_mon.Proto.External.{External}
use pfe_development_of_a_mon.Database.Nodes.{get_peer_conf_name}
use pfe_development_of_a_mon.Peers.Messages.{PeerRequest, PeerResponse}
use pfe_development_of_a_mon.Peers.Hub.{
  Hub, Handling, respond, on_unsubscribe, Subscriptions, is_under, push_peer, subscribe,
  unsubscribe, on_subscribe, handle,
}
use pfe_development_of_a_mon.Peers.Updates.{under}

under-push_other :
    (name conf peer : Text) (subs : Subscriptions)
    → same conf name ≡ false
    → under name (push_peer conf peer subs) ≡ under name subs
unfolding under
under-push_other name conf peer [] h = refl
under-push_other name conf peer ((n, peers) ∷ subs) h = ground (
  arith,
  under-push_other name conf peer subs,
  same_iff n conf,
  same_iff n name,
  same_iff conf name,
)

under-push_same :
    (conf peer : Text) (subs : Subscriptions)
    → any (is_under conf) subs ≡ true
    → under conf (push_peer conf peer subs) ≡ under conf subs ++ peer ∷ []
unfolding under
under-push_same conf peer [] h = cc
under-push_same conf peer ((n, peers) ∷ subs) h = ground (arith, under-push_same conf peer subs)

under-append :
    (name conf peer : Text) (subs : Subscriptions)
    → any (is_under conf) subs ≡ false
    → under name (subs ++ (conf, peer ∷ []) ∷ [])
      ≡ (if same conf name then under name subs ++ peer ∷ [] else under name subs)
unfolding under
under-append name conf peer [] h = ground arith
under-append name conf peer ((n, peers) ∷ subs) h =
    ground (
      arith,
      under-append name conf peer subs,
      same_iff n conf,
      same_iff n name,
      same_iff conf name,
    )

-- A subscription adds the peer under its configuration, and nothing under another.
pub under-subscribe :
    (name conf peer : Text) (subs : Subscriptions)
    → under name (subscribe conf peer subs)
      ≡ (if same conf name then under name subs ++ peer ∷ [] else under name subs)
unfolding subscribe
under-subscribe name conf peer subs = elim (Bool-cases (any (is_under conf) subs)) [
  | inr new ↦ rw (subscribe, new) (under-append name conf peer subs new)
  | inl there ↦ elim (Bool-cases (same conf name)) [
    | inr other ↦ rw (subscribe, there, other) (under-push_other name conf peer subs other)
    | inl this ↦
        let e = (same_iff conf name).0 this in
        rw (subscribe, there, this, ← e) (under-push_same conf peer subs there)
  ]
]

under-unsubscribe :
    (name conf peer : Text) (subs : Subscriptions)
    → under name (unsubscribe conf peer subs) ≡ (
        if same conf name
        then retain (λ p. not (same p peer)) (under name subs)
        else under name subs)
unfolding under unsubscribe
under-unsubscribe name conf peer [] = ground arith
under-unsubscribe name conf peer ((n, peers) ∷ subs) = ground (
  arith,
  under-unsubscribe name conf peer subs,
  same_iff n conf,
  same_iff n name,
  same_iff conf name,
)

retain-last :
    (peers : List Text) (peer : Text)
    → retain (λ p. not (same p peer)) (peers ++ peer ∷ []) ≡ retain (λ p. not (same p peer)) peers
retain-last [] peer = ground (arith, same_refl peer)
retain-last (p ∷ peers) peer = ground (arith, retain-last peers peer)

-- A node that subscribes and then unsubscribes is under its configuration no longer, and the other nodes
-- are where they were.
handle-unsubscribe :
    (x : External) (protocol_version : ℕ) (peer conf name : Text) (h : Hub)
    → get_peer_conf_name h.db peer ≡ ok conf
    → (after last : Handling) × (handle x protocol_version PeerRequest.hello_subscribe peer h
        ≡ ok after)
      × (handle x protocol_version PeerRequest.unsubscribe_default_node peer after.hub ≡ ok last)
      × (under name last.hub.subscribed ≡ (
          if same conf name
          then retain (λ p. not (same p peer)) (under name h.subscribed)
          else under name h.subscribed))
unfolding handle on_subscribe on_unsubscribe
handle-unsubscribe x protocol_version peer conf name h found =
    let subs = subscribe conf peer h.subscribed in
    let left = under-unsubscribe name conf peer subs in
    let joined = under-subscribe name conf peer h.subscribed in
    (
      respond (record h { subscribed = subs }) PeerResponse.good,
      record {
        hub = record h { subscribed = unsubscribe conf peer subs };
        response = none;
        disconnects = false;
      },
      rw (on_subscribe, found),
      rw (on_unsubscribe, found),
      ground (arith, left, joined, retain-last (under name h.subscribed) peer),
    )
