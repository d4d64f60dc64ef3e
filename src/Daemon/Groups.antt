-- ===== src/Daemon/Groups.antt =====
-- `getNodesToDaemonPods` groups the pods by the nodes that they are meant for.
use slurm_operator.Prelude.{
  String, Bool, false, not, ◌&&◌, ◌≡◌, refl, sym, ap, ◌∙◌, inl, inr, List, [], ◌∷◌, ◌++◌,
  append_assoc, append-nil, Option, none, some, keep, str_eq, eq_iff, Bool-cases, if◌then◌else◌,
  arith,
}
use slurm_operator.Api.{Pod}
use slurm_operator.Daemon.{
  Groups, pods_on, add_to, is_left_out, group_pod, group_pods, get_nodes_to_daemon_pods,
}

abbrev own : Option (List Pod) → List Pod
own none = []
own (some pods) = pods

pods_on-add_to :
    (n name : String) (pod : Pod) (groups : Groups)
    → pods_on n (add_to name pod groups)
      ≡ (if str_eq name n then some (own (pods_on n groups) ++ pod ∷ []) else pods_on n groups)
unfolding pods_on add_to
pods_on-add_to n name pod [] = ground arith
pods_on-add_to n name pod ((m, pods) ∷ groups) =
    ground (arith, eq_iff name n, eq_iff m name, eq_iff m n, pods_on-add_to n name pod groups)

-- The pods of a node beside others that come after them; a node without pods is not in the map.
abbrev pub joined : Option (List Pod) → List Pod → Option (List Pod)
joined none [] = none
joined none (x ∷ xs) = some (x ∷ xs)
joined (some ys) xs = some (ys ++ xs)

joined-snoc :
    (o : Option (List Pod)) (pod : Pod) (xs : List Pod)
    → joined (some (own o ++ pod ∷ [])) xs ≡ joined o (pod ∷ xs)
joined-snoc none pod xs = refl
joined-snoc (some ys) pod xs = ap some (append_assoc ys (pod ∷ []) xs)

joined-nil : (o : Option (List Pod)) → joined o [] ≡ o
joined-nil none = refl
joined-nil (some ys) = ap some (append-nil ys)

module _ (get_target_node_name : Pod → Option String) (include : Bool) where
  abbrev targets : String → Option String → Bool
  targets n none = false
  targets n (some name) = str_eq name n

  -- A pod that is meant for a node and is not left out.
  abbrev pub is_for : String → Pod → Bool
  is_for n pod = not (is_left_out include pod) && targets n (get_target_node_name pod)

  one :
      (n : String) (o : Option String) (pod : Pod) (groups : Groups)
      → pods_on n (group_pod get_target_node_name o pod groups)
        ≡ (if targets n o then some (own (pods_on n groups) ++ pod ∷ []) else pods_on n groups)
  one n none pod groups = refl
  one n (some name) pod groups = pods_on-add_to n name pod groups

  pods_on-group_pods :
      (n : String) (pods : List Pod) (groups : Groups)
      → pods_on n (group_pods get_target_node_name include pods groups)
        ≡ joined (pods_on n groups) (keep (is_for n) pods)
  unfolding group_pods
  pods_on-group_pods n [] groups = sym (joined-nil _)
  pods_on-group_pods n (pod ∷ pods) groups =
      let o = get_target_node_name pod in
      elim (Bool-cases (is_left_out include pod)) [
        | inl e ↦ rw e (pods_on-group_pods n pods groups)
        | inr e ↦ elim (Bool-cases (targets n o)) [
          | inl f ↦
              rw (e, f)
                (pods_on-group_pods n pods (group_pod get_target_node_name o pod groups)
                  ∙ rw (one n o pod groups, f) (joined-snoc (pods_on n groups) pod _))
          | inr f ↦
              rw (e, f)
                (pods_on-group_pods n pods (group_pod get_target_node_name o pod groups)
                  ∙ rw (one n o pod groups, f) refl)
        ]
      ]

  -- `getNodesToDaemonPods` has for a node the pods that are meant for it, in order, the ones left
  -- out that have ended and are being deleted where that is asked for; and a node without such
  -- pods is not in the map.
  pub pods_on-get_nodes_to_daemon_pods :
      (n : String) (pods : List Pod)
      → pods_on n (get_nodes_to_daemon_pods get_target_node_name include pods)
        ≡ joined none (keep (is_for n) pods)
  unfolding get_nodes_to_daemon_pods pods_on
  pods_on-get_nodes_to_daemon_pods n pods = pods_on-group_pods n pods []
