-- ===== src/Application/Run/Boot.antt =====
-- How a program of application.hpp begins, from the constructors of its parts.
use Prim.Native.Nat.{min}
use dumbo.Base.{ℕ, ◌-◌, ◌^◌, ◌<◌, ◌≡◌, refl, [], ◌∷◌, ◌++◌, some, arith}
use dumbo.Base.Results.{Result, ok}
use dumbo.Message.{make_special_one_way_lambda_message}
use dumbo.Mpsc.{Disruptor}
use dumbo.Mpsc.Fifo.{Fifo}
use dumbo.Smp.Routing.{queued, queued-make_smp, make_smp-IsValid}
use dumbo.Poller.{Kernel, IoEvent}
use dumbo.Poller.Poll.{poll_nothing}
use dumbo.Reactor.{World, spawns, put}
use dumbo.Reactor.Dispatch.{store-put}
use dumbo.EventLoop.{EventLoop, turn}
use dumbo.EventLoop.Start.{make_reactor, make_reactor-Holds}
use dumbo.Application.{Application, make_application, start_run}
use dumbo.Application.Run.{started_loop}
use dumbo.Application.Run.Answer.{first_turn}

module _ {R : Type 0} (k : Kernel) (complete : IoEvent → World R → World R) (d : Disruptor ℕ) where
  -- An application made for `n` cpus, with the reactor made for the first one: if no descriptor is
  -- ready then, the first turn of the event loop starts exactly the fiber of the main function.
  pub boot_lem :
      (f : Fifo d) (yield : EventLoop k complete d → Result (EventLoop k complete d))
      → (n next : ℕ) (fresh : d.State) (w : World R) (kernel s₁ : k.State) → 0 < n
      → f.contents fresh ≡ []
      → k.epoll_pwait kernel (min (2 ^ 14 - 0) 512) ≡ (some [], s₁)
      → (s : World R × Application d) × (l' : EventLoop k complete d) × (start_run d
            (make_application d fresh n)
            next
            w
          ≡ some s)
        × (turn k complete d (
              started_loop k complete d yield
                (make_reactor k complete d (make_application d fresh n).smp 0 w kernel)
                s)
            ≡ ok l')
        × (l'.poller.store.acts ≡ w.acts ++ spawns next ∷ [])
        × (queued d f l'.smp 0 ≡ [])
  unfolding make_application make_reactor
  boot_lem f yield n next fresh w kernel s₁ pos_n empty e =
      let w₁ = put w next (make_special_one_way_lambda_message 0) in
      let l = make_reactor k complete d (make_application d fresh n).smp 0 w kernel in
      let (h, v) = make_reactor-Holds k complete d (make_application d fresh n).smp 0 w kernel in
      first_turn k complete d f yield n 14 next (make_application d fresh n) l
        (record l.poller { store = w₁; kernel = s₁ }) (make_smp-IsValid d fresh n) pos_n refl
        (queued-make_smp d f fresh n 0 empty)
        (poll_nothing k complete 14 (record l.poller { store = w₁ }) [] s₁ h (omega arith) e) h
        (store-put w next (make_special_one_way_lambda_message 0))
