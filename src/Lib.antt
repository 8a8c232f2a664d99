-- ===== src/Lib.antt =====
-- zugoui: a web user interface in Go, whose models live on the server and in the browser, and are
-- kept in step by observers.
--
-- A model is a Go value that a controller (observable/controllers) reads and writes by keys, and by
-- key paths through the models inside it (observable/path.go). Each write is notified to the
-- registry of observers of the controller (observable/observer.go), and the observers forward it to
-- the other side. A binding keeps the value of a key path of one source in step with that of another
-- (observable/binding.go). A scroll controller shows a window of a longer list and moves it. Models
-- validate themselves (observable/validate.go), and pages name fields by JSON paths (jsonpath). A page has a
-- session (browser/session.go), whose websocket carries the streams of both sides (wsconn); on the
-- server, a controller (controller) answers the actions of the page. The page calls the server's
-- service (wsrpc/rpc.go) and gets errors with codes (wsrpc/rpctypes); the server calls the page's
-- service (jsrpc/browser.go), which keeps its bindings by handle. A store (browser/formstore.go)
-- shows a form's model and its errors to the page, named by the page's paths, and sets the model's
-- fields to values of the page (jsglue/types.go).
--
--   Prelude             names of the library, and lemmas on lists, texts, maps and numbers
--   Prelude/Int         Go's int: an integer with its wrap-around at 64 bits written out
--   Prelude/Dotted      strings.Cut and strings.Join at a dot
--   Prelude/Decimal     strconv.Itoa and Atoi
--   Observable/Observe  observable/observer.go: Observe, AddObserver, RemoveObserver, Release,
--                       Updating, observersFor and the notifications
--   Observable/KeyPath  observable/path.go: SetKeyPath, GetKeyPath, PathSetter, JoinKeyPath
--   Observable/PathObserver  observable/path.go: NewPathObserver and its notifications
--   Observable/PathObserver/Access  observable/path.go: SetValue and Value of a PathObserver
--   Observable/Binding  observable/binding.go: NewBinding, both directions of a binding, Release
--   Observable/Scroll   observable/controllers/scroll/scroll.go: Scroll and its observer
--   Observable/Model    observable/controllers/model.go: the operations that change a model
--   Observable/Model/Reads  observable/controllers/model.go: Value and the cache of sub-sources,
--                       Keys, ValueFor, ModelFor, Release
--   Observable/Validate observable/validate.go: ValidateSource
--   Observable/Transform observable/transform.go: the transformers by name
--   Jstypes             jstypes/jsvalue.go: ValueOf
--   Jsglue              jsglue/types.go: SetValue
--   JsonPath            jsonpath/jsonpath.go: Name, KeyPath, FromKeyPath
--   Browser/FormStore   browser/formstore.go: a form's model and its errors as the page sees them
--   Browser/Session     browser/session.go: run, setState, store, close and the subscribers
--   Controller          controller/controller.go: BindAction, BindValues, Release and the actions
--   Wsconn              wsconn/message.go, wsconn/endpoint.go: Message, Demux and its endpoints
--   Wsrpc/Failure       wsrpc/rpctypes/call.go, controller/errors.go: NewError and ActionError
--   Wsrpc/Server        wsrpc/rpc.go: the calls and the observers of a server
--   Jsrpc/Handles       jsrpc/browser.go: bindings by their handles, and forms by their names
--   Jsrpc/Forms         jsrpc/goui.go: pages that wait for a form, and event listeners
--   Jsrpc/Form          jsrpc/form.go: a form's errors, values and subscriptions by element ids
--   Jsrpc/Pending       jsrpc/webserver.go: actions wait for the values on their way to the server
--   Input/ValueBindings  input/valuebindings.go: which elements of a page are bound to which key
--                       paths
--   Gzasm               gzasm/gzasm.go: canServe, and the header that serveGz makes
--
-- A text is a list of bytes. A state is a record, and an operation takes it and returns the next
-- one with the notifications that it makes, in order. A value of type `any` is a parameter, or an
-- Option with `none` for nil. Mutexes are left out: an operation is one step, as the lock makes it.
--
-- The loops over a key path take fuel, the length of the path and one more, since each round cuts a
-- dot off; the theorems on them hold without a hypothesis on fuel. Every other loop is a structural
-- recursion on the rounds that are left.
--
-- Not modelled: the package reflect, given by the lists and maps of a Body and by the shapes of
-- types in JsonPath; the tags of a Model's fields and the controllers registered for them; the
-- indexed operations of a PathObserver, and its reads and writes by key paths that it hears nothing
-- of; a ValidationError that is a nil map; the calls of syscall/js, the sockets and the rpc codecs;
-- Release of the page's service; the handler and the file system that Gzasm wraps.
pub mod Prelude
pub mod Observable
pub mod JsonPath
pub mod Browser
pub mod Wsconn
pub mod Controller
pub mod Jstypes
pub mod Wsrpc
pub mod Jsglue
pub mod Jsrpc
pub mod Gzasm
pub mod Input
