-- ===== src/Web/Server.antt =====
-- src/workserver/webserver.hpp: how many threads of a webserver serve, from its constructor and
-- `start`. The capacity that a reserved vector has is a parameter.
use pow_server.Prelude.{ℕ, ◌+◌, ◌-◌, ◌%◌, ◌^◌, ◌≤◌, ◌<◌, ◌≡◌, arith}

-- threads.reserve (thread_count - 1), on an unsigned of 32 bits
unfoldable pub reserved : ℕ → ℕ
reserved thread_count = (thread_count + (2 ^ 32 - 1)) % 2 ^ 32

-- `for (auto i = threads.capacity () - 1; i > 0; --i)`: the rounds of the loop, on a size_t of 64
-- bits
unfoldable pub extra_threads : ℕ → ℕ
extra_threads capacity = (capacity + (2 ^ 64 - 1)) % 2 ^ 64

-- The threads of the loop, and the one that calls start.
unfoldable pub serving : (ℕ → ℕ) → ℕ → ℕ
unfolding reserved extra_threads
serving capacity thread_count = extra_threads (capacity (reserved thread_count)) + 1

-- If the vector's capacity is what was reserved, a server that is made for two threads or more
-- serves with one thread fewer, and one that is made for a single thread starts 2 ^ 64 - 1 others.
pub serving_lem :
    (capacity : ℕ → ℕ) (thread_count : ℕ)
    → 1 ≤ thread_count
    → thread_count < 2 ^ 32
    → capacity (thread_count - 1) ≡ thread_count - 1
    → (2 ≤ thread_count → serving capacity thread_count ≡ thread_count - 1)
      × (thread_count ≡ 1 → serving capacity thread_count ≡ 2 ^ 64)
unfolding serving reserved extra_threads
serving_lem capacity thread_count some_thread fits exact =
    let asked : (thread_count + (2 ^ 32 - 1)) % 2 ^ 32 ≡ thread_count - 1 = omega arith in
    rw asked (rw exact (λ more. omega arith, λ single. omega arith))
