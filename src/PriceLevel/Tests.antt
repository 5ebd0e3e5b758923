-- ===== src/PriceLevel/Tests.antt =====
-- A level with three orders, one of which is taken out of the middle.
use hft_order_book_simulator.Common.{◌≡◌, refl, [], ◌∷◌}
use hft_order_book_simulator.Types.{default_order}
use hft_order_book_simulator.PriceLevel.{Heap, PriceLevel, default_level, push_back, remove}
use hft_order_book_simulator.PriceLevel.Queue.{IsQueue, push_back-IsQueue}
use hft_order_book_simulator.PriceLevel.Removal.{remove-IsQueue, Removes, remove-Removes}

abbrev memory : Heap
memory p = record default_order { quantity = 10 }

no_orders : IsQueue memory default_level []
no_orders = record { head = refl; tail = refl; links = tt; distinct = tt; count = refl }

abbrev one : Heap × PriceLevel
one = push_back memory default_level 4

abbrev two : Heap × PriceLevel
two = push_back one.0 one.1 7

abbrev three : Heap × PriceLevel
three = push_back two.0 two.1 2

total_of_three : three.1.total_qty ≡ 30
unfolding push_back
total_of_three = refl

one_order : IsQueue one.0 one.1 (4 ∷ [])
one_order = push_back-IsQueue memory default_level [] 4 no_orders refl

three_orders : IsQueue three.0 three.1 (4 ∷ 7 ∷ 2 ∷ [])
three_orders =
    push_back-IsQueue two.0 two.1 (4 ∷ 7 ∷ []) 2
      (push_back-IsQueue one.0 one.1 (4 ∷ []) 7 one_order refl) refl

push_back-IsQueue_example :
    IsQueue (push_back one.0 one.1 7).0 (push_back one.0 one.1 7).1 (4 ∷ 7 ∷ [])
push_back-IsQueue_example = push_back-IsQueue one.0 one.1 (4 ∷ []) 7 one_order refl

remove-IsQueue_example :
    IsQueue (remove three.0 three.1 7).0 (remove three.0 three.1 7).1 (4 ∷ 2 ∷ [])
remove-IsQueue_example = remove-IsQueue three.0 three.1 (4 ∷ []) (2 ∷ []) 7 three_orders

remove-Removes_example : Removes three.0 three.1 7 (4 ∷ 7 ∷ 2 ∷ [])
remove-Removes_example = remove-Removes three.0 three.1 (4 ∷ []) (2 ∷ []) 7 three_orders
