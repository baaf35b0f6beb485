-- ===== src/Lib.antt =====
-- The VirtualBox support driver: a model of the parts of vboxdrv/SUPDrv.c that track what sessions
-- hold, so that it can be given back when a session ends, and of the runtime that they and the network
-- drivers use.
--
-- The device extension keeps a registry of reference counted objects and the list of loaded images;
-- each session keeps usage records of both, and a chain of bundles with the memory it has allocated.
-- The loader reads the registry, since destructors of objects may lie in an image. A session's handle
-- table names objects of the registry, each handle with a reference of its own.
--
--   Obj      SUPR0ObjRegister, SUPR0ObjAddRef(Ex), SUPR0ObjRelease, SUPR0ObjVerifyAccess, and the
--            object part of supdrvCleanupSession, on the records SUPDRVOBJ, SUPDRVUSAGE,
--            SUPDRVSESSION and SUPDRVDEVEXT of vboxdrv/SUPDrvInternal.h. The heap is a function from
--            addresses to object records, and a read of a freed one is `none`. Obj/Counts.antt counts
--            references, Obj/Invariant.antt holds the invariant, Obj/Preserved.antt,
--            Obj/Register.antt and Obj/Cleanup.antt its preservation, Obj/Behaviour.antt the outcomes
--            of the calls, and Obj/Reach.antt histories of calls.
--   MemRef   supdrvMemAdd, supdrvMemRelease and the memory part of supdrvCleanupSession.
--   MemApi   the memory interface on top of it: SUPR0LockMem, SUPR0ContAlloc, SUPR0LowAlloc,
--            SUPR0MemAlloc, SUPR0PageAllocEx and the functions that free (MemApi.antt), and the
--            functions that search, SUPR0MemGetPhys, SUPR0PageMapKernel and SUPR0PageProtect
--            (MemApi/Search.antt). MemApi/Outcomes.antt has the outcomes of each request, and
--            MemApi/Leaks.antt counts memory objects over the life of a session.
--   Ioctl    the validation of requests by supdrvIOCtl: the header, the cookies and the sizes and input
--            of 16 requests, and the function that is called then. Ioctl/Tables.antt is about names
--            and the tables of an image, Ioctl/Pages.antt and Ioctl/Buffers.antt about output buffers.
--            Ring-3 data is read once; the structures have their sizes on 64-bit hosts.
--   Gip      the global information page: its users, SUPR0GipMap, SUPR0GipUnmap and the GIP part of
--            supdrvCleanupSession (Gip/Users.antt, and Gip/Users/Events.antt for all that may happen),
--            and its updates by the timer, supdrvGipUpdate (Gip/Updates.antt) and
--            supdrvGipDoUpdateCpu (Gip/Averages.antt), and supdrvDetermineAsyncTsc and
--            supdrvGipDeterminTscMode (Gip/Mode.antt). Divisions by 0 are `none`; the times
--            and the outcomes of the start and the stop of the timer are arguments.
--   MpNotify the notifications of r0drv/mpnotification-r0drv.c: RTMpNotificationRegister and
--            RTMpNotificationDeregister (MpNotify/Registration.antt), and
--            rtMpNotificationDoCallbacks (MpNotify/Delivery.antt), which calls records with the lock
--            released, so that the chain changes meanwhile (MpNotify/Changes.antt). It is given one
--            round more than there are records; the bits for done calls are those of a 64-bit host.
--   Ldr      the image loader: supdrvIOCtl_LdrOpen (Ldr/Open.antt), supdrvIOCtl_LdrLoad
--            (Ldr/Load.antt), supdrvIOCtl_LdrFree, supdrvLdrFree and the image part of
--            supdrvCleanupSession (Ldr/Free.antt), and the symbol queries (Ldr/Symbols.antt).
--            Ldr/Balance.antt to Ldr/Counting.antt are about the counters of the images, and
--            Ldr/Validated.antt, Ldr/Loading.antt and Ldr/Lookup.antt about the checks and the outcomes of
--            a load and the outcomes of a symbol query.
--   Factory  the component factories: SUPR0ComponentRegisterFactory, SUPR0ComponentDeregisterFactory,
--            SUPR0ComponentQueryFactory and the factory part of supdrvCleanupSession.
--   HandleTable  the handle tables of the sessions, common/misc/handletable.c and handletablectx.c:
--            RTHandleTableCreateEx, RTHandleTableAllocWithCtx, RTHandleTableLookupWithCtx,
--            RTHandleTableFreeWithCtx and RTHandleTableDestroy (HandleTable/Destroy.antt).
--            HandleTable/FreeList.antt has the free list as a list of indices,
--            HandleTable/WellFormed.antt the invariant, HandleTable/Handles.antt what freeing does,
--            HandleTable/Taking.antt, HandleTable/Growth.antt and HandleTable/Allocation.antt what an
--            allocation does, HandleTable/Racing.antt an allocation among other threads, and
--            HandleTable/Counted.antt and HandleTable/Counting.antt the counter and the destruction.
--   Sem      the event semaphores of vboxdrv/SUPDrvSem.c, objects of the registry behind handles of
--            the session's table, with supdrvSessionObjHandleRetain of vboxdrv/SUPDrv.c:
--            Sem/Create.antt, Sem/Close.antt and Sem/Use.antt (signal, reset and the waits). The two
--            interfaces are one definition over the type, the context and the destructor.
--   Session  supdrvCreateSession and supdrvCleanupSession of vboxdrv/SUPDrv.c, which put the parts above
--            together: the destruction of the handle table gives the references of the handles back
--            before the others are released (Session/Handles.antt). The cleanup as a whole is in
--            Session/Whole.antt, and Session/Images.antt is about its image part;
--            Session/Creation.antt is about a new session.
--   Uuid     generic/uuid-generic.c: the values and their order (Uuid.antt, Uuid/Order.antt), and
--            their texts (Uuid/Text.antt), whose writing and reading Uuid/RoundTrip.antt and
--            Uuid/Reading.antt relate.
--   Ipv4     common/checksum/ipv4.c and the pseudo header of ipv6.c: sums and headers
--            (Ipv4/Sums.antt, Ipv4/Header.antt, Ipv4/Pseudo.antt), data (Ipv4/Data.antt), sizes
--            (Ipv4/Sizes.antt) and DHCP packets (Ipv4/Dhcp.antt).
--   Common   numbers, tests, status codes and the helpers for calls that may fault.
--
-- Counters are 32 bits wide and wrap; where a theorem needs a counter below its limit it says so.
-- Walks over linked lists are recursion on lists, and counted loops recursion on their rounds. The
-- loop of RTHandleTableAllocWithCtx is on fuel, one unit a round; two are enough when no other thread
-- touches the table. The loop over DHCP options has as many rounds as bytes are left, since no option
-- is shorter than a byte. The host is little endian. Calls of the runtime (memory, memory objects,
-- native loader) enter by their outcomes, as arguments, and what other threads do while a lock is
-- left is a function on the state.
--
-- Not modelled: the creation of the global information page and the change of its master CPU, power
-- notifications, the requests of supdrvIOCtl for functions, the paging mode, VMMR0, services, loggers
-- and VT-x, the inter-driver requests, the export table of the inter-driver symbol query, the network
-- drivers, the simple heap, and the runtime, except as named above.
pub mod Common
pub mod Factory
pub mod Gip
pub mod HandleTable
pub mod Ioctl
pub mod Ipv4
pub mod Ldr
pub mod MemApi
pub mod MemRef
pub mod MpNotify
pub mod Obj
pub mod Sem
pub mod Session
pub mod Uuid
