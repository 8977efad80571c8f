-- ===== src/Docker/Mock/Containers.antt =====
-- The simulated client: a container from its launch to its end, and the filter by labels.
use Prim.Native.String.{◌++◌ as ◌<>◌}
use aether_runner.Base.Decimal.{itoa}
use aether_runner.Base.{
  ◌≡◌, refl, ◌∙◌, ◌≢◌, ◌↔◌, inl, inr, String, ◌==◌, eq_refl, Bool, false, Option, none, some, [],
  ◌∷◌, arith, Memᴰ, Option-cases, text_cases, ap, nat_eq, nat_eq_iff, Bool-cases, if◌then◌else◌,
  length, ◌+◌,
}
use aether_runner.Base.Int.{pos, ◌<ℤ◌, ℤ, negsuc, eq_ℤ}
use aether_runner.Base.Clock.{Time, Duration}
use aether_runner.Base.Assoc.{Map, lookup, insert, lookup-insert, lookup-delete}
use aether_runner.Base.Select.{select, select-mem}
use aether_runner.Docker.Labels.{Carries, matches-Carries}
use aether_runner.Docker.{matches, LaunchOptions, ContainerInfo}
use aether_runner.Docker.Mock.{
  Context, MockClient, MockContainer, launch_container, get_container_info, get_container,
  terminate_container, stop_container, remove_container, wait_on, new_container, info_of, not_found,
  list_gpu_containers,
}

other : (id k : String) → id ≢ k → (id == k) ≡ false
other id k n = elim (text_cases id k) [ inl (e, _) ↦ absurd (n e) | inr (_, t) ↦ t ]

-- What ending a container leaves to the others.
terminate-get_container :
    (c : MockClient) (id k : String)
    → get_container (terminate_container c id).0 k ≡ (if id == k then none else get_container c k)
unfolding terminate_container stop_container remove_container get_container
terminate-get_container c id k = elim (Option-cases (lookup id c.containers)) [
  | inl e ↦ rw (e, stop_container) (lookup-delete id k c.containers)
  | inr (x, e) ↦
      rw (e, stop_container)
        (lookup-delete id k (insert id (record x { status = "exited" }) c.containers)
          ∙ elim (text_cases id k) [
            | inl (_, t) ↦ rw t
            | inr (_, t) ↦
                rw t (lookup-insert id k (record x { status = "exited" }) c.containers ∙ rw t)
          ])
]

not_taken : {A : Type 0} (b : Bool) (x y : A) → b ≡ false → (if b then x else y) ≡ y
not_taken b x y e = rw e

no_failure :
    {A : Type 0} (o : Option String) (f : String → A) (y : A)
    → o ≡ none
    → (elim o [ some err ↦ f err | none ↦ y ]) ≡ y
no_failure o f y e = rw e

missing_info :
    (c : MockClient) (id : String)
    → get_container c id ≡ none
    → get_container_info c id ≡ inl (not_found id)
unfolding get_container_info get_container
missing_info c id e = rw (e, get_container_info)

known_info :
    (c : MockClient) (id : String) (x : MockContainer)
    → get_container c id ≡ some x
    → get_container_info c id ≡ inr (info_of x)
unfolding get_container_info get_container
known_info c id x e = rw (e, get_container_info)

-- What a launch returns of the new container.
pub record Launched (id : String) (now : Time) (c : MockClient) (opts : LaunchOptions)
    (info : ContainerInfo) : Type 0 where
  pub named : info.id ≡ id
  pub runs : info.status ≡ "running"
  pub started : info.started_at ≡ now
  pub address : info.ip_address ≡ "172.17.0." <> itoa (pos (length c.containers + 2))
  pub default_port : opts.exposed_port ≡ pos 0 → info.port ≡ pos 8000
  pub own_port : opts.exposed_port ≢ pos 0 → info.port ≡ opts.exposed_port

not_zero : (a : ℤ) → a ≢ pos 0 → eq_ℤ a (pos 0) ≡ false
not_zero (pos n) h = elim (Bool-cases (nat_eq n 0)) [
  | inl e ↦ absurd (h (ap pos ((nat_eq_iff n 0).0 e)))
  | inr e ↦ ground (arith, e)
]
not_zero (negsuc n) h = ground arith

new_container-Launched :
    (id : String) (now : Time) (c : MockClient) (opts : LaunchOptions)
    → Launched id now c opts (info_of (new_container now id c opts))
unfolding info_of new_container
new_container-Launched id now c opts = record {
  named = refl;
  runs = refl;
  started = refl;
  address = refl;
  default_port = λ e. rw e refl;
  own_port = λ n. rw (not_zero opts.exposed_port n) refl;
}

wait_in_time : (ctx : Context) (delay : Duration) → delay <ℤ ctx.left → wait_on ctx delay ≡ none
unfolding wait_on
wait_in_time ctx delay l = ground arith

-- On a client that does not fail starts, with more than the delay left in the context, a launch returns the information of a container in state "running" under the new ID, with the asked port, or 8000 where none is asked, and `GetContainerInfo` returns the same afterwards; `TerminateContainer` of it returns nil and leaves no such container; the other containers are the same throughout.
pub launch_container-terminate_container :
    (ctx : Context) (now : Time) (id : String) (c : MockClient) (opts : LaunchOptions)
    → c.fail_start ≡ false
    → c.start_delay <ℤ ctx.left
    → let (c', launched) = launch_container ctx now id c opts in
      let (c'', ended) = terminate_container c' id in
      ((info : ContainerInfo) × (launched ≡ inr info)
        × Launched id now c opts info
        × (get_container_info c' id ≡ inr info))
      × ((k : String) → id ≢ k → get_container c' k ≡ get_container c k)
      × (ended ≡ none)
      × (get_container_info c'' id ≡ inl (not_found id))
      × ((k : String) → id ≢ k → get_container c'' k ≡ get_container c k)
unfolding launch_container get_container remove_container terminate_container
launch_container-terminate_container ctx now id c opts f l =
    let new = new_container now id c opts in
    let c' : MockClient = record c { containers = insert id new c.containers } in
    let done : launch_container ctx now id c opts ≡ (c', inr (info_of new)) =
      not_taken c.fail_start _ _ f
      ∙ no_failure (wait_on ctx c.start_delay) (λ e. (c, inl e)) _
          (wait_in_time ctx c.start_delay l) in
    let there : lookup id c'.containers ≡ some new =
      lookup-insert id id new c.containers ∙ rw (eq_refl id) in
    let kept : (k : String) → id ≢ k → get_container c' k ≡ get_container c k =
      λ k n. lookup-insert id k new c.containers ∙ rw (other id k n) in
    let gone : get_container (terminate_container c' id).0 id ≡ none =
      terminate-get_container c' id id ∙ rw (eq_refl id) in
    rw done (
      (info_of new, refl, new_container-Launched id now c opts, known_info c' id new there),
      kept,
      refl,
      missing_info (terminate_container c' id).0 id gone,
      λ k n. terminate-get_container c' id k ∙ rw (other id k n) (kept k n),
    )

-- A container that carries every label of the filter.
abbrev pub Labelled : Map String → MockContainer → Type 0
Labelled filter c = Carries c.labels filter

list-select :
    (cs : Map MockContainer) (filter : Map String)
    → list_gpu_containers cs filter ≡ select (λ c. matches c.labels filter) info_of cs
unfolding list_gpu_containers select
list-select [] filter = refl
list-select ((id, c) ∷ cs) filter = rw (list-select cs filter)

-- `ListGPUContainers` returns the data of exactly the containers that carry every label of the filter, all of them for the empty one.
pub list_gpu_containers-mem :
    (c : MockClient) (filter : Map String) (info : ContainerInfo)
    → Memᴰ info (list_gpu_containers c.containers filter) ↔ (
        (id : String) × (x : MockContainer) × Memᴰ (id, x) c.containers
        × Labelled filter x
        × (info ≡ info_of x))
list_gpu_containers-mem c filter info = rw list-select (
    select-mem (λ x. matches x.labels filter) info_of (Labelled filter)
      (λ x. matches-Carries x.labels filter) c.containers info)
