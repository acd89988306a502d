-- ===== src/Audit/Access.antt =====
-- Who may save results of audits, and where they go (audit/audit_contract.go, `Put`).
use frostfs_contract.Prelude.{
  ◌≡◌, ap, ◌∙◌, Bool, true, false, some, List, [], arith, ◌&&◌, if◌then◌else◌, inl, inr, Bool-cases,
}
use frostfs_contract.Prelude.Bytes.{Bytes, bytes_equal, bytes_equal_refl}
use frostfs_contract.Host.Storage.{Vm, Env, int, flag, text, list, null, bytes, Arg}
use frostfs_contract.Host.Exec.{
  Exec, State, ok, require, or_fault, read, put, query_contract, ◌>>=◌, >>=-eq-ok,
}
use frostfs_contract.Host.Frame.{or_fault-eq-ok}
use frostfs_contract.Host.Reply.{as_list}
use frostfs_contract.Common.Ir.{inner_ring_nodes_from_netmap}
use frostfs_contract.Common.Vote.{contains}
use frostfs_contract.Common.Quorum.{notary_key}
use frostfs_contract.Audit.{
  AuditHeader, netmap_key, new_audit_header, header_id, get_result, result_nodes, put_result,
}

module _ ⦃vm : Vm⦄ (env : Env) where
  as_list-same :
      (reply : Arg) (nodes : List Bytes) (s t : State) → as_list reply s ≡ ok (nodes, t) → t ≡ s
  as_list-same null nodes s t h = cc
  as_list-same (int x) nodes s t h = cc
  as_list-same (flag x) nodes s t h = cc
  as_list-same (bytes x) nodes s t h = cc
  as_list-same (text x) nodes s t h = cc
  as_list-same (list x) nodes s t h = ground arith

  nodes_from_netmap-same :
      (address : Bytes) (nodes : List Bytes) (s t : State)
      → inner_ring_nodes_from_netmap env address s ≡ ok (nodes, t)
      → t ≡ s
  unfolding inner_ring_nodes_from_netmap
  nodes_from_netmap-same address nodes s t h =
      let (reply, u, h1, h2) =
        >>=-eq-ok (query_contract env address "innerRingList" []) as_list s h in
      let same : u ≡ s = ground arith in as_list-same reply nodes u t h2 ∙ same

  -- reading the nodes changes nothing
  result_nodes-same :
      (nodes : List Bytes) (s t : State) → result_nodes env s ≡ ok (nodes, t) → t ≡ s
  unfolding result_nodes
  result_nodes-same nodes s t h =
      let rest : Bool → Exec (List Bytes) = λ off.
        if off
        then (read vm.raw netmap_key >>= λ addr. inner_ring_nodes_from_netmap env addr)
        else (λ u. ok (env.designated, u)) in
      let (off, u, h1, h2) = >>=-eq-ok (read vm.flags notary_key) rest s h in
      let same = (or_fault-eq-ok (vm.flags.cast (vm.get s.storage notary_key)) off s u h1).0 in
      from_flag off u h2 ∙ same
    where
      from_flag :
          (off : Bool) (u : State)
          → (if off
                then (read vm.raw netmap_key >>= λ addr. inner_ring_nodes_from_netmap env addr)
                else (λ v. ok (env.designated, v)))
              u
            ≡ ok (nodes, t)
          → t ≡ u
      from_flag true u h =
          let (address, v, h1, h2) =
            >>=-eq-ok (read vm.raw netmap_key) (λ addr. inner_ring_nodes_from_netmap env addr) u
              h in
          nodes_from_netmap-same address nodes v t h2
          ∙ (or_fault-eq-ok (vm.raw.cast (vm.get u.storage netmap_key)) address u v h1).0
      from_flag false u h = ground arith

  -- the guard and the write
  save_lem :
      (nodes : List Bytes) (hdr : AuditHeader) (raw : Bytes) (s t : State)
      → (require (env.check_witness hdr.from && contains nodes hdr.from) "put access denied"
            >>= λ _. put vm.raw (header_id hdr) raw)
          s
        ≡ ok (tt, t)
      → (contains nodes hdr.from ≡ true)
        × (env.check_witness hdr.from ≡ true)
        × (get_result (header_id hdr) t ≡ ok (raw, t))
        × ((k : Bytes)
            → bytes_equal (header_id hdr) k ≡ false
            → vm.get t.storage k ≡ vm.get s.storage k)
  unfolding get_result
  save_lem nodes hdr raw s t h =
      let cell = header_id hdr in
      elim (Bool-cases (env.check_witness hdr.from && contains nodes hdr.from)) [
        | inr denied ↦ absurd (ground arith)
        | inl allowed ↦
            let here : record s { storage = vm.put s.storage cell (vm.raw.encode raw) } ≡ t =
              ground arith in
            rw (← here) (
              ground arith,
              ground arith,
              ground (
                arith,
                vm.get-put s.storage cell cell (vm.raw.encode raw),
                bytes_equal_refl cell,
                vm.raw.cast-encode raw,
              ),
              λ k other. ground (arith, vm.get-put s.storage cell k (vm.raw.encode raw)),
            )
      ]

  -- A successful Put of a result has a header that can be read, the node in it is one of the inner
  -- ring and has signed; Get of the identifier made of the header returns the result, and no other
  -- cell has changed.
  pub put_result_lem :
      (raw : Bytes) (s t : State)
      → put_result env raw s ≡ ok (tt, t)
      → (hdr : AuditHeader) × (nodes : List Bytes) × (new_audit_header raw ≡ some hdr)
        × (result_nodes env s ≡ ok (nodes, s))
        × (contains nodes hdr.from ≡ true)
        × (env.check_witness hdr.from ≡ true)
        × (get_result (header_id hdr) t ≡ ok (raw, t))
        × ((k : Bytes)
            → bytes_equal (header_id hdr) k ≡ false
            → vm.get t.storage k ≡ vm.get s.storage k)
  unfolding put_result
  put_result_lem raw s t h =
      let save : List Bytes → AuditHeader → Exec Unit = λ nodes hdr.
        require (env.check_witness hdr.from && contains nodes hdr.from) "put access denied" >>= λ _.
        put vm.raw (header_id hdr) raw in
      let (nodes, u, h1, rest) =
        >>=-eq-ok (result_nodes env) (λ nodes. or_fault (new_audit_header raw) >>= save nodes) s
          h in
      let (hdr, v, h2, h3) = >>=-eq-ok (or_fault (new_audit_header raw)) (save nodes) u rest in
      let same = result_nodes-same nodes s u h1 in
      let (step, readable) = or_fault-eq-ok (new_audit_header raw) hdr u v h2 in
      let (listed, signed, stored, kept) = save_lem nodes hdr raw v t h3 in
      (
        hdr,
        nodes,
        readable,
        h1 ∙ ap (λ x. ok (nodes, x)) same,
        listed,
        signed,
        stored,
        λ k other. kept k other ∙ ap (λ x. vm.get (State.storage x) k) (step ∙ same),
      )
