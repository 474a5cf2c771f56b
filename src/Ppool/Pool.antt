-- ===== src/Ppool/Pool.antt =====
-- components/ppool/src/ppool.c: making, filling and taking down a pool.
pub mod Spec
pub mod Init
pub mod Destroy
pub mod Add
mod Tests
use emberlite.Common.{
  ℕ, zero, suc, ◌+◌, Bool, true, false, Option, none, some, List, [], ◌∷◌, ◌++◌, ◌==◌,
  if◌then◌else◌, ℤ, pos, negsuc, ◌+ℤ◌, leb_ℤ, get_or, get_elem?, set_elem?, replicate,
}
use emberlite.Ppool.Queue.{
  Ptr, PoolQueue, Cells, pe_priority_error, pe_queue_no_mem, queue_destroy, queue_new, queue_add,
}

abbrev pub pe_pool_no_mem : ℤ
pe_pool_no_mem = negsuc 0

abbrev pub pe_thread_no_mem : ℤ
pe_thread_no_mem = negsuc 1

abbrev pub pe_thread_mutex_error : ℤ
pe_thread_mutex_error = negsuc 2

abbrev pub pe_thread_cond_error : ℤ
pe_thread_cond_error = negsuc 3

-- What is allocated, or initialised.
pub data Resource : Type 0 where
  pool_block queue_block id_block ppool_lock global_lock ppool_cond : Resource

abbrev pub resource_number : Resource → ℕ
resource_number pool_block = 0
resource_number queue_block = 1
resource_number id_block = 2
resource_number ppool_lock = 3
resource_number global_lock = 4
resource_number ppool_cond = 5

-- What is live, the last first, and the globals: whether `PPOOL_LOCK` is initialised, which is one mutex
-- for all pools, and `ppool_errno`.
pub record World : Type 0 where
  pub live : List Resource
  pub global_live : Bool
  pub ppool_errno : ℤ

-- `pool_t`. An element of `id` that was never written is `none`.
pub record Pool : Type 0 where
  pub pool_max_num : ℤ
  pub rel_num : ℤ
  pub queue : PoolQueue
  pub id : List (Option ℕ)

-- What the system answers: whether malloc and the initialisers succeed, and the thread that each call
-- of pthread_create makes, if it makes one.
pub record System : Type 0 where
  pub pool_mem : Bool
  pub queue_mem : Bool
  pub id_mem : Bool
  pub lock_made : Bool
  pub global_made : Bool
  pub cond_made : Bool
  pub created : List (Option ℕ)

-- `malloc` or an initialiser. PPOOL_LOCK that is initialised again is initialised.
abbrev pub acquire : Resource → World → World
acquire global_lock w = record w { global_live = true }
acquire x w = record w { live = x ∷ w.live }

abbrev pub take_out : Resource → List Resource → Option (List Resource)
take_out x [] = none
take_out x (y ∷ ys) =
    if resource_number x == resource_number y
    then some ys
    else elim (take_out x ys) [ none ↦ none | some zs ↦ some (y ∷ zs) ]

-- `free`, or a destroy function; `none` if the resource is not live.
abbrev pub release : Resource → World → Option World
release global_lock w = if w.global_live then some (record w { global_live = false }) else none
release x w = elim (take_out x w.live) [ none ↦ none | some l ↦ some (record w { live = l }) ]

abbrev pub release_all : List Resource → World → Option World
release_all [] w = some w
release_all (x ∷ xs) w = elim (release x w) [ none ↦ none | some w' ↦ release_all xs w' ]

-- `ppool_errno = e;`, the calls that clean up, and `return NULL;`.
abbrev pub give_up : ℤ → List Resource → World → Option (Option Pool × World)
give_up e xs w = elim (release_all xs (record w { ppool_errno = e })) [
  | none ↦ none
  | some w' ↦ some (none, w')
]

-- The loop of `init` at `i`, with `left` threads to go; a call that fails leaves the id unwritten.
pub create_loop : ℕ → ℕ → List (Option ℕ) → Pool → Option Pool
create_loop zero i created pool = some pool
create_loop (suc left) i created pool = elim (get_or created i none) [
  | none ↦ create_loop left (i + 1) created pool
  | some thread ↦ elim (set_elem? pool.id i (some thread)) [
    | none ↦ none
    | some id' ↦
        create_loop left (i + 1) created (record pool { rel_num = pool.rel_num +ℤ pos 1; id = id' })
  ]
]

-- `init` from the first mutex on, for `n` threads.
pub init_threads : System → ℕ → World → Option (Option Pool × World)
unfolding create_loop
init_threads sys n w =
    if sys.lock_made
    then (let w₁ = acquire ppool_lock w in
        if sys.global_made
        then (let w₂ = acquire global_lock w₁ in
            if sys.cond_made
            then elim (create_loop n 0 sys.created (record {
              pool_max_num = pos n;
              rel_num = pos 0;
              queue = record { len = pos 0; head = 0 };
              id = replicate n none;
            })) [ none ↦ none | some pool ↦ some (some pool, acquire ppool_cond w₂) ]
            else give_up pe_thread_cond_error
                (id_block ∷ queue_block ∷ ppool_lock ∷ global_lock ∷ pool_block ∷ []) w₂)
        else give_up pe_thread_mutex_error (id_block ∷ queue_block ∷ ppool_lock ∷ pool_block ∷ [])
            w₁)
    else give_up pe_thread_mutex_error (id_block ∷ queue_block ∷ pool_block ∷ []) w

-- The result is NULL, or the pool.
pub init : System → ℤ → World → Option (Option Pool × World)
unfolding init_threads
init sys (negsuc m) w = give_up pe_priority_error [] w
init sys (pos zero) w = give_up pe_priority_error [] w
init sys (pos (suc m)) w =
    if sys.pool_mem
    then (let w₁ = acquire pool_block w in
        if sys.queue_mem
        then (let w₂ = acquire queue_block w₁ in
            if sys.id_mem
            then init_threads sys (suc m) (acquire id_block w₂)
            else give_up pe_thread_no_mem (queue_block ∷ pool_block ∷ []) w₂)
        else give_up pe_queue_no_mem (pool_block ∷ []) w₁)
    else give_up pe_pool_no_mem [] w

-- `pool_task`; the entry may be NULL.
pub record PoolTask (E P : Type 0) : Type 0 where
  pub entry : Option E
  pub parameter : P
  pub priority : ℤ

-- What a call does to the lock and the condition, with the queue at that moment.
pub data Signal : Type 0 where
  locked broadcast unlocked : PoolQueue → Signal

-- The nodes and the queue in the course of `add`, and the signals so far.
pub record Adding (E P : Type 0) : Type 0 where
  pub cells : Cells E P
  pub queue : PoolQueue
  pub signals : List Signal

pub signal : {E P : Type 0} → (PoolQueue → Signal) → Adding E P → Adding E P
signal kind st = record st { signals = st.signals ++ (kind st.queue ∷ []) }

-- The call of ppool_queue_add.
pub put : {E P : Type 0} → ℕ → Ptr → Adding E P → Option (Adding E P)
put fuel node st = elim (queue_add fuel st.cells st.queue node) [
  | none ↦ none
  | some r ↦ some (record st { cells = r.0; queue = r.1 })
]

-- `add` for what `queue_new` made. The result: the value, the nodes, the pool, the world and the
-- signals.
pub add_made :
    {E P : Type 0}
    → ℕ
    → Pool
    → World
    → Option ℤ × Ptr × Cells E P
    → Option (Bool × Cells E P × Option Pool × World × List Signal)
unfolding signal put
add_made {E = E} {P = P} fuel pool w (e, node, cells) =
    let w' : World = elim e [ none ↦ w | some n ↦ record w { ppool_errno = n } ] in
    if node == 0
    then some (false, cells, some pool, w', [])
    else elim (put fuel node
        (signal locked (record { cells = cells; queue = pool.queue; signals = [] }))) [
          | none ↦ none
          | some st ↦
              let end : Adding E P = signal unlocked (signal broadcast st) in
              some (true, end.cells, some (record pool { queue = end.queue }), w', end.signals)
        ]

-- `got` is what malloc returns.
pub add :
    {E P : Type 0}
    → ℕ
    → Ptr
    → Cells E P
    → Option Pool
    → Option (PoolTask E P)
    → World
    → Option (Bool × Cells E P × Option Pool × World × List Signal)
unfolding add_made
add fuel got cells none task w = some (false, cells, none, w, [])
add fuel got cells (some pool) none w = some (false, cells, some pool, w, [])
add fuel got cells (some pool) (some task) w = elim task.entry [
  | none ↦ some (false, cells, some pool, w, [])
  | some entry ↦ add_made fuel pool w (queue_new got cells entry task.parameter task.priority)
]

-- The loop of `destroy` at `i`: the threads that are cancelled. The test reads `id[i]`, which is `none`
-- as a result if it was never written.
pub cancel_loop : ℕ → ℕ → List (Option ℕ) → Option (List ℕ)
cancel_loop zero i id = some []
cancel_loop (suc left) i id = elim (get_or id i none) [
  | none ↦ none
  | some thread ↦ elim (cancel_loop left (i + 1) id) [
    | none ↦ none
    | some ts ↦ if thread == 0 then some ts else some (thread ∷ ts)
  ]
]

-- The nodes that are left, the threads that were cancelled, and the world. `pool_max_num` is positive.
pub destroy :
    {E P : Type 0} → ℕ → Cells E P → Option Pool → World → Option (Cells E P × List ℕ × World)
unfolding cancel_loop
destroy fuel cells none w = some (cells, [], w)
destroy fuel cells (some pool) w = elim (queue_destroy fuel cells (some pool.queue)) [
  | none ↦ none
  | some cells' ↦ elim (release queue_block w) [
    | none ↦ none
    | some w' ↦ elim (cancel_loop (elim pool.pool_max_num [ pos n ↦ n | negsuc n ↦ 0 ]) 0 pool.id) [
      | none ↦ none
      | some threads ↦
          elim (release_all (id_block ∷ ppool_lock ∷ global_lock ∷ ppool_cond ∷ pool_block ∷ [])
            w') [ none ↦ none | some w'' ↦ some (cells', threads, w'') ]
    ]
  ]
]
