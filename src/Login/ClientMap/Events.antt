-- ===== src/Login/ClientMap/Events.antt =====
-- clientUserMap when a client connects, disconnects, is verified or is tied to a game server.
use bmservers.Prelude.{
  ℕ, suc, ◌≡◌, ◌≢◌, inl, inr, ap, ◌∙◌, sym, none, some, List, arith, ◌==◌, ==_iff, if◌then◌else◌,
  Bool-cases, Option-cases,
}
use bmservers.Prelude.Assoc.{nat_key, lookup, insert, erase, lookup-insert, lookup-erase}
use bmservers.Login.State.{ClientNode}
use bmservers.Login.Registry.{
  UserMap, add_client_to_client_user_map, remove_client_from_client_user_map,
}
use bmservers.Login.ClientMap.{owner, once, IsClientMap, listed-add, listed-remove}

module _ (heap : List (ℕ × ClientNode)) (data_of : List (ℕ × ℕ)) (users : UserMap) (next : ℕ)
    (h : IsClientMap heap data_of users next) where
  owner-connected :
      (p : ℕ) (new : ClientNode)
      → new.uid ≡ 0
      → lookup new.conn data_of ≡ none
      → owner p (insert next new heap) (insert new.conn next data_of) ≡ owner p heap data_of
  owner-connected p new none_yet fresh = elim (Option-cases (lookup p heap)) [
    | inl e ↦ ground (arith, lookup-insert next p new heap)
    | inr (cn, e) ↦ ground (
      arith,
      h.below p cn e,
      lookup-insert next p new heap,
      lookup-insert new.conn cn.conn next data_of,
    )
  ]

  -- A connection that is new.
  pub connected-IsClientMap :
      (new : ClientNode)
      → new.uid ≡ 0
      → lookup new.conn data_of ≡ none
      → IsClientMap (insert next new heap) (insert new.conn next data_of) users (suc next)
  connected-IsClientMap new none_yet fresh = record {
    in_lists =
        λ uid p. h.in_lists uid p ∙ ap (once uid) (sym (owner-connected p new none_yet fresh));
    data_node = λ conn p e. elim (Bool-cases (new.conn == conn)) [
      | inl here ↦ (
        new,
        ground (arith, lookup-insert new.conn conn next data_of, lookup-insert next p new heap),
        (==_iff new.conn conn).0 here,
      )
      | inr other ↦
          let (cn, at, is) =
            h.data_node conn p (ground (arith, lookup-insert new.conn conn next data_of)) in
          (cn, ground (arith, h.below p cn at, lookup-insert next p new heap), is)
    ];
    below = λ p cn e. ground (arith, lookup-insert next p new heap, h.below p cn);
  }

  owner-disconnected :
      (conn p q : ℕ) (cn : ClientNode)
      → lookup conn data_of ≡ some p
      → lookup p heap ≡ some cn
      → cn.conn ≡ conn
      → owner q heap (erase conn data_of) ≡ (if p == q then 0 else owner q heap data_of)
  owner-disconnected conn p q cn at node is = elim (Option-cases (lookup q heap)) [
    | inl e ↦ rw e (ground arith)
    | inr (cq, e) ↦ rw (e, lookup-erase conn cq.conn data_of) (ground arith)
  ]

  -- A connection that goes away.
  pub disconnected-IsClientMap :
      (conn p : ℕ) (cn : ClientNode)
      → lookup conn data_of ≡ some p
      → lookup p heap ≡ some cn
      → IsClientMap heap (erase conn data_of) (remove_client_from_client_user_map p cn users).1 next
  disconnected-IsClientMap conn p cn at node =
      let (cn', node', is') = h.data_node conn p at in
      let is : cn.conn ≡ conn = ground arith in
      let own : owner p heap data_of ≡ cn.uid = ground arith in
      record {
        in_lists = λ uid q.
            rw
              (
                listed-remove uid q p cn users,
                owner-disconnected conn p q cn at node is,
                h.in_lists uid q,
              )
              (ground (arith, own));
        data_node = λ c q e. h.data_node c q (ground (arith, lookup-erase conn c data_of));
        below = h.below;
      }

  -- A client that is connected and not verified gets a uid.
  pub verified-IsClientMap :
      (conn p uid : ℕ) (cn : ClientNode)
      → lookup conn data_of ≡ some p
      → lookup p heap ≡ some cn
      → cn.uid ≡ 0
      → uid ≢ 0
      → IsClientMap
          (insert p (record cn { uid = uid }) heap)
          data_of
          (add_client_to_client_user_map p (record cn { uid = uid }) users)
          next
  verified-IsClientMap conn p uid cn at node none_yet not0 =
      let (cn', node', is') = h.data_node conn p at in
      let is : cn.conn ≡ conn = ground arith in
      let own : owner p heap data_of ≡ cn.uid = ground arith in
      record {
        in_lists = λ u q.
            rw
              (
                listed-add u q p (record cn { uid = uid }) users,
                h.in_lists u q,
                lookup-insert p q (record cn { uid = uid }) heap,
              )
              (ground (arith, own));
        data_node = λ c q e.
            let (cq, atq, isq) = h.data_node c q e in
            elim (Bool-cases (p == q)) [
              | inl same ↦ (
                record cn { uid = uid },
                ground (arith, lookup-insert p q (record cn { uid = uid }) heap),
                ground arith,
              )
              | inr other ↦
                  (cq, ground (arith, lookup-insert p q (record cn { uid = uid }) heap), isq)
            ];
        below = λ q cq e. ground (
          arith,
          lookup-insert p q (record cn { uid = uid }) heap,
          h.below q cq,
          h.below p cn node,
        );
      }

  -- Forgetting a connection that is not there changes nothing.
  pub erased_none :
      (conn : ℕ) → lookup conn data_of ≡ none → IsClientMap heap (erase conn data_of) users next
  erased_none conn gone = record {
    in_lists = λ uid p. elim (Option-cases (lookup p heap)) [
      | inl e ↦ ground (arith, h.in_lists uid p)
      | inr (cn, e) ↦ ground (arith, h.in_lists uid p, lookup-erase conn cn.conn data_of)
    ];
    data_node = λ c q e. h.data_node c q (ground (arith, lookup-erase conn c data_of));
    below = h.below;
  }

  -- A node that keeps its uid and its connection.
  pub tied-IsClientMap :
      (p : ℕ) (cn cn' : ClientNode)
      → lookup p heap ≡ some cn
      → cn'.uid ≡ cn.uid
      → cn'.conn ≡ cn.conn
      → IsClientMap (insert p cn' heap) data_of users next
  tied-IsClientMap p cn cn' at same_uid same_conn = record {
    in_lists = λ u q. rw (lookup-insert p q cn' heap) (ground (arith, h.in_lists u q));
    data_node = λ c q e.
        let (cq, atq, isq) = h.data_node c q e in
        elim (Bool-cases (p == q)) [
          | inl same ↦ (cn', ground (arith, lookup-insert p q cn' heap), ground arith)
          | inr other ↦ (cq, ground (arith, lookup-insert p q cn' heap), isq)
        ];
    below = λ q cq e. ground (arith, lookup-insert p q cn' heap, h.below q cq, h.below p cn at);
  }
