-- ===== src/Semaphore/Create.antt =====
-- The creation of a semaphore, against the heap and the handle table.
use tiny_rt.Base.{
  if-false, ℕ, ◌≡◌, ◌≢◌, refl, true, false, ◌==◌, [], arith, inl, inr, ◌⊎◌, Bool-cases, some,
  ==-false→ne, ==→eq, ap, ◌∙◌, sym, subst, if◌then◌else◌,
}
use tiny_rt.Error.{Res, val, err}
use tiny_rt.Sched.State.{wait_head}
use tiny_rt.Handle.{
  Table, ObjType, type_eq, trt_handle_alloc, trt_handle_lookup, check_access, handle_generation,
}
use tiny_rt.Handle.Validity.{IsValid}
use tiny_rt.Handle.Map.{lookup-alloc}
use tiny_rt.Heap.{Heap, heap_init_once, malloc, free}
use tiny_rt.Heap.Calls.{IsHeap}
use tiny_rt.Heap.Roundtrip.{IsCoalesced}
use tiny_rt.Heap.Promise.{IsBack, IsGrant, malloc_gives, free-malloc, malloc_null}
use tiny_rt.Kernel.{Kernel, Sem, waiters, object_size, object_rights, is_negative, int_ltb}
use tiny_rt.WaitQueue.{trt_wait_q_init}
use tiny_rt.Semaphore.{sem_init_obj, granted, give_handle, trt_sem_create}

-- What becomes of an object: a handle that finds it, or none, with the object freed.
pub record IsGiven (type : ObjType) (object : ℕ) (k : Kernel) (u : Heap) (h : ℕ) (k' : Kernel)
    : Type 0 where
  pub kept : k' ≡ record k { handles = k'.handles; heap = k'.heap }
  pub outcome :
      ((h ≢ 0)
        × ((trt_handle_lookup k'.handles h type object_rights 1).0 ≡ val object)
        × (k'.heap ≡ k.heap))
      ⊎ ((h ≡ 0) × (k'.heap ≡ u))

found_again :
    (type : ObjType) (object h : ℕ) (other : Res ℕ)
    → type_eq type type ≡ true
    → (if h == h
        then check_access type object_rights (record {
          object = object;
          type = type;
          rights = object_rights;
          generation = handle_generation h;
          used = true;
        })
        else other)
      ≡ val object
found_again type object h other same = ground (arith, same)

granted-IsGiven :
    (type : ObjType) (object : ℕ) (k : Kernel) (u : Heap) (r : Res ℕ × Table)
    → IsValid k.handles
    → type_eq type type ≡ true
    → free k.heap object ≡ some u
    → trt_handle_alloc k.handles object type object_rights 1 ≡ r
    → (h : ℕ) × (k' : Kernel) × (granted object k r ≡ some (h, k')) × IsGiven type object k u h k'
unfolding granted
granted-IsGiven type object k u (val h, t) v same freed e =
    let (nz, small, _, finds) = lookup-alloc k.handles object type object_rights 1 v e in
    let found =
      finds h type object_rights 1 small (ground arith) ∙ found_again type object h _ same in
    (h, record k { handles = t }, refl, record { kept = refl; outcome = inl (nz, found, refl) })
granted-IsGiven type object k u (err x, t) v same freed e = (
  0,
  record k { handles = t; heap = u },
  rw (freed, granted) refl,
  record { kept = refl; outcome = inr (refl, refl) },
)

pub give_handle-IsGiven :
    (type : ObjType) (object : ℕ) (k : Kernel) (u : Heap)
    → IsValid k.handles
    → type_eq type type ≡ true
    → free k.heap object ≡ some u
    → (h : ℕ) × (k' : Kernel) × (give_handle type object k ≡ some (h, k'))
      × IsGiven type object k u h k'
unfolding give_handle
give_handle-IsGiven type object k u v same freed =
    granted-IsGiven type object k u (trt_handle_alloc k.handles object type object_rights 1) v same
      freed refl

abbrev initial : ℕ → ℕ → Sem
initial max cnt = record {
  cnt = if is_negative cnt then 0 else cnt;
  max = if int_ltb max cnt then cnt else max;
  destroyed = false;
}

-- A new semaphore: its block is in use, its handle finds it, it has its count and maximum, and nobody
-- waits.
pub record IsCreated (k : Kernel) (max cnt h s : ℕ) (k' : Kernel) : Type 0 where
  pub not_null : h ≢ 0
  pub grant : IsGrant (heap_init_once k.heap) object_size s k'.heap
  pub found : (trt_handle_lookup k'.handles h ObjType.sem object_rights 1).0 ≡ val s
  pub sem : k'.sems s ≡ initial max cnt
  pub idle : k'.sched.lists (wait_head (waiters s)) ≡ []
  pub others : (o : ℕ) → o ≢ s → k'.sems o ≡ k.sems o

init_obj_lem :
    (k : Kernel) (s max cnt : ℕ)
    → let k' = sem_init_obj k s max cnt in
      (k'.handles ≡ k.handles)
      × (k'.heap ≡ k.heap)
      × (k'.sems s ≡ initial max cnt)
      × (k'.sched.lists (wait_head (waiters s)) ≡ [])
      × ((o : ℕ) → o ≢ s → k'.sems o ≡ k.sems o)
unfolding sem_init_obj trt_wait_q_init
init_obj_lem k s max cnt = (refl, refl, ground arith, ground arith, λ o ne. ground arith)

resolve : {A : Type 0} {n : ℕ} → n ≢ 0 → (n ≡ 0) ⊎ A → A
resolve nz (inl z) = absurd (nz z)
resolve nz (inr a) = a

IsBack-refl : (u : Heap) → IsBack u u
IsBack-refl u = record { same = refl; payloads = λ q x c here used above below. refl }

-- With a valid handle table and a heap that satisfies `IsHeap` and where no free block follows
-- another, `trt_sem_create` is defined. It answers a handle of a new semaphore with an empty queue, in
-- a block of its own, or TRT_HANDLE_INVALID, also when there is memory but no free slot. A new
-- semaphore has the given count, but 0 for a negative one, and the given maximum, but the given count
-- where that is above the maximum, as signed numbers. With TRT_HANDLE_INVALID the heap is as it was
-- once it had been initialized: the same blocks, and the same bytes in those that were in use.
pub create_lem :
    (k : Kernel) (max cnt : ℕ)
    → IsHeap k.heap
    → IsCoalesced (heap_init_once k.heap).blocks
    → IsValid k.handles
    → (h : ℕ) × (k' : Kernel) × (trt_sem_create k max cnt ≡ some (h, k'))
      × (((h ≡ 0) × IsBack (heap_init_once k.heap) k'.heap)
          ⊎ ((s : ℕ) × IsCreated k max cnt h s k'))
unfolding trt_sem_create
create_lem k max cnt vh co vt =
    let m = malloc k.heap object_size in
    elim (Bool-cases (m.0 == 0)) [
      | inl z ↦ (
        0,
        record k { heap = m.1 },
        rw z refl,
        inl (
          refl,
          subst (IsBack (heap_init_once k.heap))
              (sym (malloc_null k.heap object_size vh (ground arith) (==→eq m.0 0 z)))
              (IsBack-refl (heap_init_once k.heap)),
        ),
      )
      | inr nz ↦
          let k1 = sem_init_obj (record k { heap = m.1 }) m.0 max cnt in
          let (same_handles, same_heap, sem, idle, others) =
            init_obj_lem (record k { heap = m.1 }) m.0 max cnt in
          let some_bytes : m.0 ≢ 0 = ==-false→ne m.0 0 nz in
          let grant : IsGrant (heap_init_once k.heap) object_size m.0 m.1 =
            resolve some_bytes (malloc_gives k.heap object_size vh (ground arith)) in
          let (u, freed, back) =
            resolve some_bytes (free-malloc k.heap object_size vh (ground arith) co) in
          let (h, k', e, given) =
            give_handle-IsGiven ObjType.sem m.0 k1 u (subst IsValid (sym same_handles) vt) refl
              (ap (λ w. free w m.0) same_heap ∙ freed) in
          let sems : k'.sems ≡ k1.sems = ap (λ x. x.sems) given.kept in
          let sched : k'.sched ≡ k1.sched = ap (λ x. x.sched) given.kept in
          (
            h,
            k',
            if-false _ nz e,
            elim given.outcome [
              | inr (hz, heap) ↦ inl (hz, subst (IsBack (heap_init_once k.heap)) (sym heap) back)
              | inl (hn, found, heap) ↦ inr (
                m.0,
                record {
                  not_null = hn;
                  grant =
                      subst (IsGrant (heap_init_once k.heap) object_size m.0)
                        (sym (heap ∙ same_heap)) grant;
                  found = found;
                  sem = ap (λ f. f m.0) sems ∙ sem;
                  idle = ap (λ x. x.lists (wait_head (waiters m.0))) sched ∙ idle;
                  others = λ o ne. ap (λ f. f o) sems ∙ others o ne;
                },
              )
            ],
          )
    ]
