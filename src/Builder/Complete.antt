-- ===== src/Builder/Complete.antt =====
-- Builder: what a module function leaves behind is what the resolution relies on.
use hardhat_ignition.Prelude.{
  ◌≡◌, inl, inr, refl, subst, String, List, [], ◌∷◌, if◌then◌else◌, lookup, insert, In, arith,
  Option-cases, Bool-cases,
}
use hardhat_ignition.Types.{
  Value, ContractBinding, Result, ok, err, type_error, should_redeploy_already_defined, or_fail,
  >>=-eq-ok, or_fail-eq-ok,
}
use hardhat_ignition.Builder.{
  ModuleBuilder, Dependency, Hook, hooks, set_binding, with_library, with_force,
  with_should_redeploy, with_deploy_fn, no_hooks, new_contract_binding, contract, library,
  update_binding, contract_template, bind_template, group_should_redeploy, new_module_builder,
}
use hardhat_ignition.Builder.Calls.{
  on_start, on_completion, on_success, on_fail, Call, perform, build,
}
use hardhat_ignition.Builder.Hooks.{IsHooked, IsHooked-insert}
use hardhat_ignition.Builder.Register.{HasHooks, binding_hook-HasHooks, group_hook-HasHooks}

-- An update of a binding that leaves its hooks alone.
update_binding-HasHooks :
    (f : ContractBinding → ContractBinding) (n : String) (m m' : ModuleBuilder)
    → ((b : ContractBinding) → (f b).events_deps ≡ b.events_deps)
    → HasHooks m
    → update_binding f n m ≡ ok m'
    → HasHooks m'
unfolding update_binding
update_binding-HasHooks f n m m' same hooked e =
    let (b, e₁, e₂) =
      >>=-eq-ok (or_fail (lookup n m.bindings) type_error) (λ b. ok (set_binding n (f b) m)) e in
    let q : set_binding n (f b) m ≡ m' = cc in
    subst HasHooks q (
      IsHooked-insert n (f b) m.bindings m.contract_events hooked (λ h x i.
        hooked n b (or_fail-eq-ok (lookup n m.bindings) type_error e₁) h x
          (subst (λ r. In x (hooks h r)) (same b) i)))

new_contract_binding-HasHooks :
    (n c : String) (args : List Value) (m : ModuleBuilder)
    → HasHooks m
    → HasHooks (set_binding n (new_contract_binding n c args m) m)
unfolding new_contract_binding
new_contract_binding-HasHooks n c args m hooked =
    IsHooked-insert n (new_contract_binding n c args m) m.bindings m.contract_events hooked
      (λ h x i. absurd (none_listed h x i))
  where
    none_listed : (h : Hook) (x : String) → ¬ In x (hooks h no_hooks)
    none_listed Hook.before_compile x i = i
    none_listed Hook.after_compile x i = i
    none_listed Hook.before_deploy x i = i
    none_listed Hook.after_deploy x i = i
    none_listed Hook.on_change x i = i

contract-HasHooks :
    (n : String) (args : List Value) (m m' : ModuleBuilder)
    → HasHooks m
    → contract n args m ≡ ok m'
    → HasHooks m'
unfolding contract
contract-HasHooks n args m m' hooked e = elim (Option-cases (lookup n m.bindings)) [
  | inl q ↦
      subst HasHooks
        (let r : set_binding n (new_contract_binding n n args m) m ≡ m' = ground arith in r)
        (new_contract_binding-HasHooks n n args m hooked)
  | inr (a, q) ↦ absurd (ground arith)
]

bind_template-HasHooks :
    (n t : String) (args : List Value) (m m' : ModuleBuilder)
    → HasHooks m
    → bind_template n t args m ≡ ok m'
    → HasHooks m'
unfolding bind_template
bind_template-HasHooks n t args m m' hooked e = elim (Option-cases (lookup n m.bindings)) [
  | inl q ↦ elim (Option-cases (lookup t m.templates)) [
    | inl r ↦ absurd (ground arith)
    | inr (c, r) ↦
        subst HasHooks
          (let s : set_binding n (new_contract_binding n c args m) m ≡ m' = ground arith in s)
          (new_contract_binding-HasHooks n c args m hooked)
  ]
  | inr (a, q) ↦ absurd (ground arith)
]

group_should_redeploy-HasHooks :
    (ds : List Dependency) (m m' : ModuleBuilder)
    → HasHooks m
    → group_should_redeploy ds m ≡ ok m'
    → HasHooks m'
unfolding group_should_redeploy
group_should_redeploy-HasHooks [] m m' hooked e = subst HasHooks (let q : m ≡ m' = cc in q) hooked
group_should_redeploy-HasHooks (Dependency.event n ∷ ds) m m' hooked e =
    group_should_redeploy-HasHooks ds m m' hooked e
group_should_redeploy-HasHooks (Dependency.binding n ∷ ds) m m' hooked e =
    let (b, e₁, e₂) = >>=-eq-ok (or_fail (lookup n m.bindings) type_error) next e in
    elim (Bool-cases b.deploy_meta_data.should_redeploy) [
      | inl t ↦ absurd (let q : err should_redeploy_already_defined ≡ ok m' = rw t at e₂ in cc)
      | inr f ↦
          group_should_redeploy-HasHooks ds (set_binding n (with_should_redeploy b) m) m'
            (IsHooked-insert n (with_should_redeploy b) m.bindings m.contract_events hooked
              (hooked n b (or_fail-eq-ok (lookup n m.bindings) type_error e₁)))
            (rw f at e₂)
    ]
  where
    next : ContractBinding → Result ModuleBuilder
    next b =
        if b.deploy_meta_data.should_redeploy
        then err should_redeploy_already_defined
        else group_should_redeploy ds (set_binding n (with_should_redeploy b) m)

perform-HasHooks :
    (c : Call) (m m' : ModuleBuilder) → HasHooks m → perform c m ≡ ok m' → HasHooks m'
unfolding perform library contract_template on_start on_completion on_success on_fail
perform-HasHooks (Call.call_contract n args) m m' hooked e = contract-HasHooks n args m m' hooked e
perform-HasHooks (Call.call_library n args) m m' hooked e =
    let (m₁, e₁, e₂) = >>=-eq-ok (contract n args m) (update_binding with_library n) e in
    update_binding-HasHooks with_library n m₁ m' (λ b. refl)
      (contract-HasHooks n args m m₁ hooked e₁) e₂
perform-HasHooks (Call.call_template n) m m' hooked e =
    subst HasHooks (let q : record m { templates = insert n n m.templates } ≡ m' = cc in q) hooked
perform-HasHooks (Call.call_bind_template n t args) m m' hooked e =
    bind_template-HasHooks n t args m m' hooked e
perform-HasHooks (Call.call_hook h owner x usages) m m' hooked e =
    binding_hook-HasHooks h owner x usages m m' hooked e
perform-HasHooks (Call.call_group_hook h ds x usages) m m' hooked e =
    group_hook-HasHooks h ds x usages m m' hooked e
perform-HasHooks (Call.call_set_library n) m m' hooked e =
    update_binding-HasHooks with_library n m m' (λ b. refl) hooked e
perform-HasHooks (Call.call_force n) m m' hooked e =
    update_binding-HasHooks with_force n m m' (λ b. refl) hooked e
perform-HasHooks (Call.call_should_redeploy n) m m' hooked e =
    update_binding-HasHooks with_should_redeploy n m m' (λ b. refl) hooked e
perform-HasHooks (Call.call_deploy_fn n deps) m m' hooked e =
    update_binding-HasHooks (with_deploy_fn deps) n m m' (λ b. refl) hooked e
perform-HasHooks (Call.call_group_should_redeploy ds) m m' hooked e =
    group_should_redeploy-HasHooks ds m m' hooked e
perform-HasHooks (Call.call_on_start n) m m' hooked e =
    subst HasHooks (let q : on_start n m ≡ m' = cc in q) hooked
perform-HasHooks (Call.call_on_completion n) m m' hooked e =
    subst HasHooks (let q : on_completion n m ≡ m' = cc in q) hooked
perform-HasHooks (Call.call_on_success n) m m' hooked e =
    subst HasHooks (let q : on_success n m ≡ m' = cc in q) hooked
perform-HasHooks (Call.call_on_fail n) m m' hooked e =
    subst HasHooks (let q : on_fail n m ≡ m' = cc in q) hooked

build-HasHooks :
    (calls : List Call) (m m' : ModuleBuilder) → HasHooks m → build calls m ≡ ok m' → HasHooks m'
unfolding build
build-HasHooks [] m m' hooked e = subst HasHooks (let q : m ≡ m' = cc in q) hooked
build-HasHooks (c ∷ cs) m m' hooked e =
    let (m₁, e₁, e₂) = >>=-eq-ok (perform c m) (build cs) e in
    build-HasHooks cs m₁ m' (perform-HasHooks c m m₁ hooked e₁) e₂

-- Whatever calls a module function makes, when it ends without an error every hook that a contract lists is
-- the name of an event of the module, of the type of that hook, that has the contract among its
-- dependencies.
pub build_hooks_complete :
    (calls : List Call) (name : String) (m : ModuleBuilder)
    → build calls (new_module_builder name) ≡ ok m
    → IsHooked m.bindings m.contract_events
unfolding lookup
build_hooks_complete calls name m e =
    build-HasHooks calls (new_module_builder name) m (λ n b q. absurd (cc)) e
